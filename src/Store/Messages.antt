-- ===== src/Store/Messages.antt =====
-- src/db/messages.py: ingest, the review cursor, and the deltas past it.
pub mod Ingest
pub mod Cursor
use whatsapp_radar.Base.{
  ℕ, suc, ◌-◌, String, Bool, true, false, ◌&&◌, Option, none, some, List, [], ◌∷◌, ◌++◌, map,
  flatten, ◌==◌, eqb, leb, ltb, select, any, find, update_where, if◌then◌else◌,
}
use whatsapp_radar.Base.Sort.{sort}
use whatsapp_radar.Base.TextOrder.{leb_text}
use whatsapp_radar.Store.Rows.{Chat, MessageRecord, StoredMessage, RollingContext, ReviewState, Db}
use whatsapp_radar.Store.Chats.{has_id, family_member_ids}

-- `UNIQUE (chat_id, source_message_id)`
abbrev pub is_row_of : ℕ → String → StoredMessage → Bool
is_row_of chat_id source_message_id m =
    eqb m.chat_id chat_id && m.source_message_id == source_message_id

abbrev pub new_row : ℕ → ℕ → MessageRecord → StoredMessage
new_row i chat_id m = record {
  id = i;
  chat_id = chat_id;
  source_message_id = m.source_message_id;
  message_timestamp = m.message_timestamp;
  text = m.text;
  sender_label = m.sender_label;
  message_type = m.message_type;
  transcription_status = m.transcription_status;
  media_path = m.media_path;
  summary = none;
  task_exported_at = none;
  raw = m.raw;
}

-- One `INSERT OR IGNORE`.
unfoldable pub insert_or_ignore : ℕ → MessageRecord → Db → Db
insert_or_ignore chat_id m db =
    if any (is_row_of chat_id m.source_message_id) db.messages then db else record db {
      messages = db.messages ++ new_row (suc db.last_message_id) chat_id m ∷ [];
      last_message_id = suc db.last_message_id;
    }

-- `executemany`
unfoldable pub insert_all : ℕ → List MessageRecord → Db → Db
unfolding insert_or_ignore
insert_all chat_id [] db = db
insert_all chat_id (m ∷ ms) db = insert_all chat_id ms (insert_or_ignore chat_id m db)

abbrev pub max_text : String → String → String
max_text s t = if leb_text s t then t else s

-- `max(m.message_timestamp for m in msgs)`, from the first of them.
unfoldable pub latest_timestamp : String → List MessageRecord → String
latest_timestamp t [] = t
latest_timestamp t (m ∷ ms) = latest_timestamp (max_text t m.message_timestamp) ms

abbrev pub touch : String → Chat → Chat
touch t c = record c {
  last_message_at = some (elim c.last_message_at [ none ↦ max_text "" t | some s ↦ max_text s t ]);
}

abbrev pub length_of : List StoredMessage → ℕ
length_of [] = 0
length_of (m ∷ ms) = suc (length_of ms)

-- The rows created are `total_changes` after less before.
unfoldable pub insert_messages : ℕ → List MessageRecord → Db → Db × ℕ
unfolding insert_all latest_timestamp
insert_messages chat_id [] db = (db, 0)
insert_messages chat_id (m ∷ ms) db =
    let filled = insert_all chat_id (m ∷ ms) db in
    (
      record filled {
        chats =
            update_where (has_id chat_id) (touch (latest_timestamp m.message_timestamp ms))
              filled.chats;
      },
      length_of filled.messages - length_of db.messages,
    )

abbrev pub state_of : ℕ → ReviewState → Bool
state_of chat_id s = eqb s.chat_id chat_id

-- The chat's cursor, `last_processed_message_id`.
unfoldable pub cursor : Db → ℕ → Option ℕ
cursor db chat_id = elim (find (state_of chat_id) db.states) [
  | none ↦ none
  | some s ↦ some s.last_processed_message_id
]

-- `id > mid`, and every id where there is no cursor.
abbrev pub is_past : Option ℕ → ℕ → Bool
is_past none i = true
is_past (some mid) i = ltb mid i

-- `ORDER BY message_timestamp, id`
unfoldable pub leb_sent : StoredMessage → StoredMessage → Bool
leb_sent a b =
    if a.message_timestamp == b.message_timestamp
    then leb a.id b.id
    else leb_text a.message_timestamp b.message_timestamp

abbrev pub is_new : Db → ℕ → StoredMessage → Bool
is_new db chat_id m = eqb m.chat_id chat_id && is_past (cursor db chat_id) m.id

unfoldable pub messages_since_cursor : Db → ℕ → List StoredMessage
messages_since_cursor db chat_id = sort leb_sent (select (is_new db chat_id) db.messages)

-- `since` is the cutoff that the caller's clock gives for `since_days`.
unfoldable pub messages_for_chat : Db → ℕ → (since : Option String) → List StoredMessage
messages_for_chat db chat_id none = sort leb_sent (select (λ m. eqb m.chat_id chat_id) db.messages)
messages_for_chat db chat_id (some cutoff) =
    sort leb_sent
      (select (λ m. eqb m.chat_id chat_id && leb_text cutoff m.message_timestamp) db.messages)

unfoldable pub merge_by_send_order : List (List StoredMessage) → List StoredMessage
merge_by_send_order deltas = sort leb_sent (flatten deltas)

unfoldable pub family_delta_since_cursor : Db → ℕ → List StoredMessage
unfolding merge_by_send_order messages_since_cursor
family_delta_since_cursor db head =
    merge_by_send_order (map (messages_since_cursor db) (family_member_ids db head))

unfoldable pub family_delta_replay : Db → ℕ → Option String → List StoredMessage
unfolding merge_by_send_order messages_for_chat
family_delta_replay db head since =
    merge_by_send_order (map (λ c. messages_for_chat db c since) (family_member_ids db head))

-- `ON CONFLICT(chat_id) DO UPDATE`: the row of the chat is written anew, or added.
abbrev pub put_state : ReviewState → List ReviewState → List ReviewState
put_state s [] = s ∷ []
put_state s (t ∷ ts) = if eqb t.chat_id s.chat_id then s ∷ ts else t ∷ put_state s ts

unfoldable pub advance_cursor : String → ℕ → ℕ → String → Option RollingContext → Db → Db
advance_cursor now chat_id last_id last_timestamp rolling db = record db {
  states =
      put_state
        (record {
          chat_id = chat_id;
          last_reviewed_at = now;
          last_processed_message_id = last_id;
          last_processed_message_timestamp = last_timestamp;
          rolling_context = rolling;
        })
        db.states;
}

-- `max(msgs, key=lambda m: m.id)` from a first message, and `ORDER BY id DESC LIMIT 1`.
unfoldable pub last_by_id : StoredMessage → List StoredMessage → StoredMessage
last_by_id m [] = m
last_by_id m (x ∷ xs) = last_by_id (if ltb m.id x.id then x else m) xs

abbrev pub last_of : List StoredMessage → Option StoredMessage
last_of [] = none
last_of (m ∷ ms) = some (last_by_id m ms)

abbrev baseline_at : String → ℕ → Option StoredMessage → Db → Db × Bool
baseline_at now chat_id none db = (db, false)
baseline_at now chat_id (some m) db =
    (advance_cursor now chat_id m.id m.message_timestamp none db, true)

unfoldable pub baseline_cursor : String → ℕ → Db → Db × Bool
unfolding advance_cursor last_by_id
baseline_cursor now chat_id db =
    if any (state_of chat_id) db.states
    then (db, false)
    else baseline_at now chat_id (last_of (select (λ m. eqb m.chat_id chat_id) db.messages)) db
