-- ===== src/Tests/Stored.antt =====
-- The store, the review of a family, the contract and the prefilter on small inputs.
use whatsapp_radar.Base.{
  ℕ, ◌≤◌, sym, ◌∙◌, ◌+◌, String, ◌≡◌, ◌↔◌, refl, true, not, none, some, List, [], ◌∷◌, ◌++◌, map,
  eqb, any, select, count_where, All, arith,
}
use whatsapp_radar.Base.Sort.{sort}
use whatsapp_radar.Base.TextOrder.{leb_text}
use whatsapp_radar.Base.Json.{get}
use whatsapp_radar.Store.Rows.{StoredMessage, Db}
use whatsapp_radar.Store.Chats.{link_chats, get_chat, child_count, family_member_ids}
use whatsapp_radar.Store.Chats.Families.{IsFlat, link-IsFlat}
use whatsapp_radar.Store.Messages.{
  insert_messages, family_delta_since_cursor, cursor, is_new, leb_sent, advance_cursor,
}
use whatsapp_radar.Store.Messages.Ingest.{is_stored, insert_messages_idem, insert_messages_new}
use whatsapp_radar.Store.Retention.{is_prunable, free_orphan, prune_rows, prune_gmail_unmonitored}
use whatsapp_radar.Store.Retention.Laws.{removed, prune_idem, prune_exempt}
use whatsapp_radar.Review.{is_before, barrier, hold_back_if_transcribing, advance_family_cursors}
use whatsapp_radar.Review.Cursors.{
  of_chat, IsGreatest, barrier_if, cursor-advance_family, review_exact, family_review_exact,
}
use whatsapp_radar.Contract.{parse_analysis}
use whatsapp_radar.Contract.Accepted.{IsAccepted, parse_analysis-IsAccepted}
use whatsapp_radar.Keywords.{matched_rules, has_actionable_signal}
use whatsapp_radar.Keywords.Signal.{is_among, has_root, NoRepeats, signal_roots}
use whatsapp_radar.Tests.Samples.{db, message, chat, delivered, delta, rules, loads}

-- The linked chat's message is read with the group's, in the order of sending.
family_delta_test : map (λ m. m.id) (family_delta_since_cursor db 1) ≡ 1 ∷ 2 ∷ 3 ∷ []
unfolding family_delta_since_cursor sort family_member_ids cursor leb_sent leb_text
family_delta_test = refl

-- The voice note is held back, so the group's cursor stays at the message before it.
review_test :
    cursor
      (advance_family_cursors "2024-03-01" 1
        (hold_back_if_transcribing (family_delta_since_cursor db 1) true)
        none
        db)
      1
    ≡ some 1
unfolding family_delta_since_cursor sort family_member_ids cursor leb_sent leb_text
    advance_family_cursors hold_back_if_transcribing barrier advance_cursor
review_test = refl

family_review_exact_example :
    All
      (λ m.
        is_new
          (advance_family_cursors "2024-03-01" 1
            (hold_back_if_transcribing (family_delta_since_cursor db 1) true)
            none
            db)
          m.chat_id
          m
        ≡ not (is_before (barrier_if true (family_delta_since_cursor db 1)) m))
      (family_delta_since_cursor db 1)
family_review_exact_example = family_review_exact "2024-03-01" 1 none true db

review_exact_example :
    All
      (λ m.
        is_new
          (advance_family_cursors "2024-03-01" 1 (hold_back_if_transcribing delta true) none db)
          m.chat_id
          m
        ≡ not (is_before (barrier_if true delta) m))
      delta
unfolding cursor
review_exact_example = review_exact "2024-03-01" 1 none true db delta (refl, tt)

-- The later of the two was ingested first.
abbrev two_messages : List StoredMessage
two_messages =
    message 3 1 "2024-02-01" "meeting on monday" none ∷ message 1 1 "2024-02-03" "hello" none ∷ []

cursor-advance_family_example :
    IsGreatest
      (of_chat 1 two_messages)
      (cursor db 1)
      (cursor (advance_family_cursors "2024-03-01" 1 two_messages none db) 1)
cursor-advance_family_example = cursor-advance_family "2024-03-01" 1 none two_messages db 1

-- The sample's ids are unique, and its one child has no children.
db-IsFlat : IsFlat db
db-IsFlat = record { unique = λ i. ground arith; flat = (tt, (refl, (tt, (tt, tt)))) }

-- The third chat becomes a child of the first.
link-IsFlat_example : IsFlat (record db {
  chats =
      chat 1 "whatsapp" "monitored" none
      ∷ chat 2 "whatsapp" "discovered" (some 1)
      ∷ chat 3 "gmail" "discovered" (some 1)
      ∷ chat 4 "whatsapp" "monitored" none
      ∷ [];
})
unfolding link_chats get_chat child_count
link-IsFlat_example = link-IsFlat 3 1 db _ db-IsFlat refl

insert_messages_idem_example :
    ((insert_messages 1
        (delivered "2024-02-09" ∷ [])
        (insert_messages 1 (delivered "2024-02-09" ∷ []) db).0).1
      ≡ 0)
    × ((insert_messages 1
          (delivered "2024-02-09" ∷ [])
          (insert_messages 1 (delivered "2024-02-09" ∷ []) db).0).0.messages
        ≡ (insert_messages 1 (delivered "2024-02-09" ∷ []) db).0.messages)
    × All
        (λ m. is_stored 1 (insert_messages 1 (delivered "2024-02-09" ∷ []) db).0 m ≡ true)
        (delivered "2024-02-09" ∷ [])
insert_messages_idem_example = insert_messages_idem 1 (delivered "2024-02-09" ∷ []) db

-- The first chat was read up to its message 3.
abbrev read_db : Db
read_db = record db {
  states =
      record {
        chat_id = 1;
        last_reviewed_at = "2024-02-08";
        last_processed_message_id = 3;
        last_processed_message_timestamp = "2024-02-03";
        rolling_context = none;
      }
      ∷ [];
}

read_cursor : cursor read_db 1 ≡ some 3
unfolding cursor
read_cursor = refl

below_last : (mid : ℕ) → cursor read_db 1 ≡ some mid → mid ≤ read_db.last_message_id
below_last mid h =
    let same : some 3 ≡ some mid = sym read_cursor ∙ h in
    let equal : 3 ≡ mid = cc in omega (arith, equal)

insert_messages_new_example :
    (rows : List StoredMessage) × ((insert_messages 1
        (delivered "2024-02-09" ∷ [])
        read_db).0.messages
      ≡ read_db.messages ++ rows)
    × All (λ m. is_new (insert_messages 1 (delivered "2024-02-09" ∷ []) read_db).0 1 m ≡ true) rows
insert_messages_new_example = insert_messages_new 1 (delivered "2024-02-09" ∷ []) read_db below_last

-- The offer of January, and with it the Gmail sender, are removed.
prune_idem_example :
    prune_gmail_unmonitored 30 "2024-02-01" (prune_rows "2024-02-01" db).0
    ≡ some ((prune_rows "2024-02-01" db).0, record { messages_pruned = 0; senders_removed = 0 })
unfolding prune_gmail_unmonitored leb_text
prune_idem_example =
    prune_idem 30 "2024-02-01" db (prune_rows "2024-02-01" db).0 (prune_rows "2024-02-01" db).1 refl

-- The monitored group of the fourth chat is linked to the Gmail sender.
abbrev linked_db : Db
linked_db = record db {
  chats =
      chat 1 "whatsapp" "monitored" none
      ∷ chat 2 "whatsapp" "discovered" (some 1)
      ∷ chat 3 "gmail" "discovered" none
      ∷ chat 4 "whatsapp" "monitored" (some 3)
      ∷ [];
}

-- The pass removes the sender, and clears the group's link.
prune_link_test :
    map (λ c. c.parent_chat_id) (prune_rows "2024-02-01" linked_db).0.chats
    ≡ none ∷ some 1 ∷ none ∷ []
unfolding leb_text
prune_link_test = refl

prune_exempt_example :
    (select (λ m. eqb m.chat_id 1) (prune_rows "2024-02-01" linked_db).0.messages
      ≡ select (λ m. eqb m.chat_id 1) linked_db.messages)
    × (select (λ c. not (is_prunable c)) (prune_rows "2024-02-01" linked_db).0.chats
        ≡ map
            (free_orphan (removed "2024-02-01" linked_db))
            (select (λ c. not (is_prunable c)) linked_db.chats))
    × ((prune_rows "2024-02-01" linked_db).1.messages_pruned
          + count_where (λ _. true) (prune_rows "2024-02-01" linked_db).0.messages
        ≡ count_where (λ _. true) linked_db.messages)
unfolding prune_gmail_unmonitored leb_text
prune_exempt_example =
    prune_exempt 30 "2024-02-01" linked_db (prune_rows "2024-02-01" linked_db).0
      (prune_rows "2024-02-01" linked_db).1 refl 1 refl

parse_analysis-IsAccepted_example : IsAccepted (loads "verdict") (record {
  action_required = true;
  priority = some "high";
  summary = none;
  suggested_next_action = none;
  deadline = none;
  confidence = none;
  evidence_message_ids = "2024-02-01" ∷ [];
  deadline_date = none;
  child = none;
  task_category = none;
  prep_complexity = none;
})
unfolding parse_analysis get
parse_analysis-IsAccepted_example = parse_analysis-IsAccepted loads "verdict" _ refl

signal_roots_example :
    let signal = has_actionable_signal (λ s. s) rules delta "whatsapp" in
    ((k : String)
      → is_among k signal.roots
        ≡ any (λ m. has_root k (matched_rules (λ s. s) rules m.text "whatsapp")) delta)
    × NoRepeats signal.roots
    × ((signal.matched ≡ true) ↔ ((k : String) × (is_among k signal.roots ≡ true)))
signal_roots_example = signal_roots (λ s. s) rules delta "whatsapp"
