-- ===== src/Sync/Kept.antt =====
-- src/db/sync.py: what an ingest leaves alone.
use whatsapp_radar.Base.{
  ℕ, String, ◌≡◌, refl, sym, ap, ◌∙◌, inl, inr, Bool, Option, none, some, List, [], ◌∷◌, ◌++◌, map,
  append_assoc, append-nil, update_where, find, any, Bool-cases, Option-cases,
}
use whatsapp_radar.Store.Rows.{ChatRecord, Chat, MessageRecord, StoredMessage, Db}
use whatsapp_radar.Store.Chats.{chat_id_for_source, get_chat, upsert_chat, same_identity, has_id}
use whatsapp_radar.Store.Messages.{
  insert_messages, insert_all, insert_or_ignore, touch, latest_timestamp, is_row_of,
}
use whatsapp_radar.Sync.{
  Reply, offline, got, Connector, IngestDelta, no_delta, settle_chat, differs, fetched, ingest_chat,
  and_then-keeps, ingest_each, ingest_chats, tagged,
}

-- The columns of a chat that an ingest never writes to.
abbrev pub Decided : Type 0
Decided = ℕ × String × String × String × Option String × Option ℕ × String

abbrev pub decided : Chat → Decided
decided c = (c.id, c.source, c.source_chat_id, c.status, c.alias, c.parent_chat_id, c.first_seen_at)

-- The cursors are those of before; the chats of before stand first, with those columns; and so do the
-- messages of before, unchanged.
pub record IsKept (before after : Db) : Type 0 where
  pub states : after.states ≡ before.states
  pub new_chats : List Decided
  pub chats : map decided after.chats ≡ map decided before.chats ++ new_chats
  pub new_messages : List StoredMessage
  pub messages : after.messages ≡ before.messages ++ new_messages

IsKept-refl : (db : Db) → IsKept db db
IsKept-refl db = record {
  states = refl;
  new_chats = [];
  chats = sym (append-nil (map decided db.chats));
  new_messages = [];
  messages = sym (append-nil db.messages);
}

IsKept-trans : (a b c : Db) → IsKept a b → IsKept b c → IsKept a c
IsKept-trans a b c v w = record {
  states = w.states ∙ v.states;
  new_chats = v.new_chats ++ w.new_chats;
  chats = w.chats ∙ rw v.chats (append_assoc (map decided a.chats) v.new_chats w.new_chats);
  new_messages = v.new_messages ++ w.new_messages;
  messages = w.messages ∙ rw v.messages (append_assoc a.messages v.new_messages w.new_messages);
}

-- A function of rows that leaves those columns alone.
map-update_where :
    (p : Chat → Bool) (f : Chat → Chat) (xs : List Chat)
    → ((c : Chat) → decided (f c) ≡ decided c)
    → map decided (update_where p f xs) ≡ map decided xs
map-update_where p f [] h = refl
map-update_where p f (x ∷ xs) h = elim (Bool-cases (p x)) [
  | inl e ↦ rw (e, h x, map-update_where p f xs h) refl
  | inr e ↦ rw (e, map-update_where p f xs h) refl
]

map-append_chats : (xs ys : List Chat) → map decided (xs ++ ys) ≡ map decided xs ++ map decided ys
map-append_chats [] ys = refl
map-append_chats (x ∷ xs) ys = ap (λ zs. decided x ∷ zs) (map-append_chats xs ys)

with_chats-IsKept :
    (db : Db) (cs : List Chat) (n : ℕ) (more : List Decided)
    → map decided cs ≡ map decided db.chats ++ more
    → IsKept db (record db { chats = cs; last_chat_id = n })
with_chats-IsKept db cs n more e = record {
  states = refl;
  new_chats = more;
  chats = e;
  new_messages = [];
  messages = sym (append-nil db.messages);
}

upsert_chat-IsKept :
    (now : String) (chat : ChatRecord) (db : Db) → IsKept db (upsert_chat now chat db).0
unfolding upsert_chat
upsert_chat-IsKept now chat db =
    elim (Option-cases (find (same_identity chat.source chat.source_chat_id) db.chats)) [
      | inl f ↦ rw (upsert_chat, f) (with_chats-IsKept db _ _ _ (map-append_chats db.chats _))
      | inr (row, f) ↦
          rw (upsert_chat, f)
            (with_chats-IsKept db _ _ [] (
              map-update_where (same_identity chat.source chat.source_chat_id)
                (λ c. record c {
                  display_name = chat.display_name;
                  chat_type = chat.chat_type;
                  last_seen_at = now;
                })
                db.chats (λ c. refl)
              ∙ sym (append-nil (map decided db.chats))))
    ]

insert_or_ignore-IsKept :
    (chat_id : ℕ) (m : MessageRecord) (db : Db) → IsKept db (insert_or_ignore chat_id m db)
unfolding insert_or_ignore
insert_or_ignore-IsKept chat_id m db =
    elim (Bool-cases (any (is_row_of chat_id m.source_message_id) db.messages)) [
      | inl e ↦ rw e (IsKept-refl db)
      | inr e ↦ rw e (record {
        states = refl;
        new_chats = [];
        chats = sym (append-nil (map decided db.chats));
        new_messages = _;
        messages = refl;
      })
    ]

insert_all-IsKept :
    (chat_id : ℕ) (ms : List MessageRecord) (db : Db) → IsKept db (insert_all chat_id ms db)
unfolding insert_all
insert_all-IsKept chat_id [] db = IsKept-refl db
insert_all-IsKept chat_id (m ∷ ms) db =
    IsKept-trans db (insert_or_ignore chat_id m db) _ (insert_or_ignore-IsKept chat_id m db)
      (insert_all-IsKept chat_id ms (insert_or_ignore chat_id m db))

pub insert_messages-IsKept :
    (chat_id : ℕ) (ms : List MessageRecord) (db : Db) → IsKept db (insert_messages chat_id ms db).0
unfolding insert_messages
insert_messages-IsKept chat_id [] db = IsKept-refl db
insert_messages-IsKept chat_id (m ∷ ms) db =
    let filled = insert_all chat_id (m ∷ ms) db in
    IsKept-trans db filled _ (insert_all-IsKept chat_id (m ∷ ms) db) (
      with_chats-IsKept filled _ filled.last_chat_id [] (
        map-update_where (has_id chat_id) (touch (latest_timestamp m.message_timestamp ms))
          filled.chats (λ c. refl)
        ∙ sym (append-nil (map decided filled.chats))))

module _ (clock : String → String) where
  settle_chat-IsKept :
      (chat : ChatRecord) (o : Option ℕ) (db : Db) (d : IngestDelta)
      → IsKept db (settle_chat clock chat o db d).0
  unfolding settle_chat
  settle_chat-IsKept chat none db d = upsert_chat-IsKept (clock chat.source_chat_id) chat db
  settle_chat-IsKept chat (some i) db d = elim (Bool-cases (differs clock chat (get_chat db i))) [
    | inl t ↦ rw t (upsert_chat-IsKept (clock chat.source_chat_id) chat db)
    | inr t ↦ rw t (IsKept-refl db)
  ]

  fetched-IsKept :
      (i : ℕ) (db : Db) (d : IngestDelta) (r : Reply (List MessageRecord))
      → IsKept db (fetched clock i db d r).0
  fetched-IsKept i db d (offline text) = IsKept-refl db
  fetched-IsKept i db d (got records) = insert_messages-IsKept i records db

  pub ingest_chat-IsKept :
      (k : Connector) (chat : ChatRecord) (db : Db) (d : IngestDelta)
      → IsKept db (ingest_chat clock k chat db d).0
  unfolding ingest_chat
  ingest_chat-IsKept k chat db d =
      IsKept-trans db _ _
        (settle_chat-IsKept chat (chat_id_for_source db chat.source_chat_id chat.source) db d)
        (fetched-IsKept _ _ _ _)

  ingest_each-IsKept :
      (k : Connector) (chats : List ChatRecord) (start db : Db) (d : IngestDelta)
      → IsKept start db
      → IsKept start (ingest_each clock k chats db d).0
  unfolding ingest_each
  ingest_each-IsKept k [] start db d h = h
  ingest_each-IsKept k (chat ∷ chats) start db d h =
      and_then-keeps clock (λ s. IsKept start s.0) (ingest_chat clock k chat db d)
        (λ filled noted. ingest_each clock k chats filled noted)
        (λ filled noted n. ingest_each-IsKept k chats start filled noted n)
        (IsKept-trans start db _ h (ingest_chat-IsKept k chat db d))

  -- An ingest, also one that its connector breaks off, moves no review cursor, keeps the messages that
  -- are stored as they are and in place, and keeps the chats with their id, their status, their alias
  -- and their parent: it only adds messages and chats.
  pub ingest_chats-IsKept :
      (k : Connector) (source : String) (db : Db) → IsKept db (ingest_chats clock k source db).0
  unfolding ingest_chats
  ingest_chats-IsKept k source db = go k.list_chats
    where
      go :
          (r : Reply (List ChatRecord))
          → IsKept db
              (elim r as (λ x. Db × Reply IngestDelta) [
                | offline text ↦ (db, offline text)
                | got chats ↦ ingest_each clock k (map (tagged clock source) chats) db no_delta
              ]).0
      go (offline text) = IsKept-refl db
      go (got chats) =
          ingest_each-IsKept k (map (tagged clock source) chats) db db no_delta (IsKept-refl db)
