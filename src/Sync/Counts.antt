-- ===== src/Sync/Counts.antt =====
-- src/db/sync.py: what an ingest counts is what it adds to the store.
use whatsapp_radar.Base.{
  ℕ, suc, ◌+◌, ◌≤◌, String, ◌≡◌, refl, ap, inl, inr, Bool, Option, none, some, List, [], ◌∷◌, ◌++◌,
  map, length, arith, update_where, find, any, ◌∙◌, Bool-cases, Option-cases,
}
use whatsapp_radar.Store.Rows.{ChatRecord, Chat, MessageRecord, StoredMessage, Db}
use whatsapp_radar.Store.Chats.{chat_id_for_source, get_chat, upsert_chat, same_identity, has_id}
use whatsapp_radar.Store.Messages.{
  insert_messages, insert_all, insert_or_ignore, length_of, touch, latest_timestamp, is_row_of,
}
use whatsapp_radar.Sync.{
  Reply, offline, got, Connector, IngestDelta, no_delta, settle_chat, differs, fetched, ingest_chat,
  and_then-keeps, ingest_each, ingest_chats, tagged, seen,
}

-- The store has the messages and the chats of before, `m` and `c`, and those that are counted.
abbrev pub IsCounted : ℕ → ℕ → Db × Reply IngestDelta → Type 0
IsCounted m c (db, offline text) = Unit
IsCounted m c (db, got d) =
    (length_of db.messages ≡ m + d.messages_added) × (length db.chats ≡ c + d.chats_added)

length_of-append : (xs ys : List StoredMessage) → length_of (xs ++ ys) ≡ length_of xs + length_of ys
length_of-append [] ys = omega arith
length_of-append (x ∷ xs) ys = omega (arith, length_of-append xs ys)

length-append : (xs ys : List Chat) → length (xs ++ ys) ≡ length xs + length ys
length-append [] ys = omega arith
length-append (x ∷ xs) ys = omega (arith, length-append xs ys)

length-update_where :
    (p : Chat → Bool) (f : Chat → Chat) (xs : List Chat) → length (update_where p f xs) ≡ length xs
length-update_where p f [] = refl
length-update_where p f (x ∷ xs) = omega (arith, length-update_where p f xs)

insert_or_ignore-grows :
    (chat_id : ℕ) (m : MessageRecord) (db : Db)
    → (length_of db.messages ≤ length_of (insert_or_ignore chat_id m db).messages)
      × ((insert_or_ignore chat_id m db).chats ≡ db.chats)
unfolding insert_or_ignore
insert_or_ignore-grows chat_id m db =
    elim (Bool-cases (any (is_row_of chat_id m.source_message_id) db.messages)) [
      | inl e ↦ rw e (omega arith, refl)
      | inr e ↦ rw e (omega (arith, length_of-append db.messages _), refl)
    ]

pub insert_all-grows :
    (chat_id : ℕ) (ms : List MessageRecord) (db : Db)
    → (length_of db.messages ≤ length_of (insert_all chat_id ms db).messages)
      × ((insert_all chat_id ms db).chats ≡ db.chats)
unfolding insert_all
insert_all-grows chat_id [] db = (omega arith, refl)
insert_all-grows chat_id (m ∷ ms) db =
    let one = insert_or_ignore-grows chat_id m db in
    let more = insert_all-grows chat_id ms (insert_or_ignore chat_id m db) in
    (omega (arith, one.0, more.0), more.1 ∙ one.1)

insert_messages-counts :
    (chat_id : ℕ) (ms : List MessageRecord) (db : Db)
    → (length_of (insert_messages chat_id ms db).0.messages
        ≡ length_of db.messages + (insert_messages chat_id ms db).1)
      × (length (insert_messages chat_id ms db).0.chats ≡ length db.chats)
unfolding insert_messages
insert_messages-counts chat_id [] db = (omega arith, refl)
insert_messages-counts chat_id (m ∷ ms) db =
    let grown = insert_all-grows chat_id (m ∷ ms) db in
    (
      omega (arith, grown.0),
      length-update_where (has_id chat_id) (touch (latest_timestamp m.message_timestamp ms)) _
          ∙ ap length grown.1,
    )

-- What the upsert does to a row that it finds.
abbrev refreshed : String → ChatRecord → Chat → Chat
refreshed now chat c = record c {
  display_name = chat.display_name;
  chat_type = chat.chat_type;
  last_seen_at = now;
}

upsert_chat-new :
    (now : String) (chat : ChatRecord) (db : Db)
    → chat_id_for_source db chat.source_chat_id chat.source ≡ none
    → ((upsert_chat now chat db).0.messages ≡ db.messages)
      × (length (upsert_chat now chat db).0.chats ≡ suc (length db.chats))
unfolding upsert_chat chat_id_for_source
upsert_chat-new now chat db e =
    elim (Option-cases (find (same_identity chat.source chat.source_chat_id) db.chats)) [
      | inl f ↦ rw (upsert_chat, f) (refl, omega (arith, length-append db.chats _))
      | inr (row, f) ↦ absurd (ground (arith, rw (chat_id_for_source, f) at e))
    ]

upsert_chat-old :
    (now : String) (chat : ChatRecord) (db : Db) (i : ℕ)
    → chat_id_for_source db chat.source_chat_id chat.source ≡ some i
    → ((upsert_chat now chat db).0.messages ≡ db.messages)
      × (length (upsert_chat now chat db).0.chats ≡ length db.chats)
unfolding upsert_chat chat_id_for_source
upsert_chat-old now chat db i e =
    elim (Option-cases (find (same_identity chat.source chat.source_chat_id) db.chats)) [
      | inl f ↦ absurd (ground (arith, rw (chat_id_for_source, f) at e))
      | inr (row, f) ↦
          rw (upsert_chat, f)
            (
              refl,
              length-update_where (same_identity chat.source chat.source_chat_id)
                  (refreshed now chat) db.chats,
            )
    ]

module _ (clock : String → String) where
  settle_chat-counts :
      (chat : ChatRecord) (o : Option ℕ) (db : Db) (d : IngestDelta) (m c : ℕ)
      → chat_id_for_source db chat.source_chat_id chat.source ≡ o
      → IsCounted m c (db, got d)
      → IsCounted m c
          ((settle_chat clock chat o db d).0, got (seen clock (settle_chat clock chat o db d).2))
  unfolding settle_chat
  settle_chat-counts chat none db d m c e h =
      let new = upsert_chat-new (clock chat.source_chat_id) chat db e in
      (rw new.0 h.0, omega (arith, new.1, h.1))
  settle_chat-counts chat (some i) db d m c e h =
      elim (Bool-cases (differs clock chat (get_chat db i))) [
        | inl t ↦
            let old = upsert_chat-old (clock chat.source_chat_id) chat db i e in
            rw t (rw old.0 h.0, omega (arith, old.1, h.1))
        | inr t ↦ rw t h
      ]

  fetched-counts :
      (i : ℕ) (db : Db) (d : IngestDelta) (r : Reply (List MessageRecord)) (m c : ℕ)
      → IsCounted m c (db, got d)
      → IsCounted m c (fetched clock i db d r)
  fetched-counts i db d (offline text) m c h = tt
  fetched-counts i db d (got records) m c h =
      let more = insert_messages-counts i records db in
      (omega (arith, more.0, h.0), omega (arith, more.1, h.1))

  ingest_chat-counts :
      (k : Connector) (chat : ChatRecord) (db : Db) (d : IngestDelta) (m c : ℕ)
      → IsCounted m c (db, got d)
      → IsCounted m c (ingest_chat clock k chat db d)
  unfolding ingest_chat
  ingest_chat-counts k chat db d m c h = fetched-counts _ _ _ _ m c (
      settle_chat-counts chat (chat_id_for_source db chat.source_chat_id chat.source) db d m c refl
        h)

  ingest_each-counts :
      (k : Connector) (chats : List ChatRecord) (db : Db) (d : IngestDelta) (m c : ℕ)
      → IsCounted m c (db, got d)
      → IsCounted m c (ingest_each clock k chats db d)
  unfolding ingest_each
  ingest_each-counts k [] db d m c h = h
  ingest_each-counts k (chat ∷ chats) db d m c h =
      and_then-keeps clock (IsCounted m c) (ingest_chat clock k chat db d)
        (λ filled noted. ingest_each clock k chats filled noted)
        (λ filled noted n. ingest_each-counts k chats filled noted m c n)
        (ingest_chat-counts k chat db d m c h)

  -- When a source is not offline, the messages and the chats that its ingest reports as added are, in
  -- number, those by which the store has grown.
  pub ingest_chats-IsCounted :
      (k : Connector) (source : String) (db : Db)
      → IsCounted (length_of db.messages) (length db.chats) (ingest_chats clock k source db)
  unfolding ingest_chats
  ingest_chats-IsCounted k source db = go k.list_chats
    where
      go :
          (r : Reply (List ChatRecord))
          → IsCounted (length_of db.messages) (length db.chats) (elim r [
            | offline text ↦ (db, offline text)
            | got chats ↦ ingest_each clock k (map (tagged clock source) chats) db no_delta
          ])
      go (offline text) = tt
      go (got chats) =
          ingest_each-counts k (map (tagged clock source) chats) db no_delta (length_of db.messages)
            (length db.chats) (omega arith, omega arith)
