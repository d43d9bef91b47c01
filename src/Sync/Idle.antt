-- ===== src/Sync/Idle.antt =====
-- src/db/sync.py: a second sync of what has not changed finds nothing to do.
use whatsapp_radar.Base.{
  ℕ, String, ◌≡◌, refl, ap, ◌∙◌, inl, inr, Bool, true, false, none, List, [], ◌∷◌, ◌++◌, map, arith,
  ◌==◌, update_where, any, All, All-map, Bool-cases,
}
use whatsapp_radar.Store.Rows.{Chat, ChatRecord, MessageRecord, StoredMessage, Db}
use whatsapp_radar.Store.Chats.{chat_id_for_source, has_id}
use whatsapp_radar.Store.Messages.{
  insert_messages, insert_all, touch, latest_timestamp, length_of, is_row_of,
}
use whatsapp_radar.Store.Messages.Ingest.{is_stored, insert_all_stored, insert_messages_idem}
use whatsapp_radar.Sync.{
  Reply, offline, got, Connector, IngestDelta, no_delta, settle_chat, ingest_chat, ingest_each,
  ingest_chats, tagged, take_in, seen,
}
use whatsapp_radar.Sync.Kept.{IsKept, ingest_chat-IsKept}
use whatsapp_radar.Sync.Keyed.{IsKeyed}
use whatsapp_radar.Sync.Shown.{
  IsShown, settle_chat-IsShown, settle_chat-other, insert_messages-IsShown, settle_chat-IsKeyed,
  insert_messages-IsKeyed, settle_chat_idle, IsShown-later,
}

-- A source that is connected, and always gives the same.
abbrev pub steady : List ChatRecord → (String → List MessageRecord) → Connector
steady chats records = record {
  prepare = none;
  list_chats = got chats;
  fetch = λ id known. got (records id);
}

-- It lists every chat once.
abbrev pub AreApart : List ChatRecord → Type 0
AreApart [] = Unit
AreApart (c ∷ cs) = All (λ e. (c.source_chat_id == e.source_chat_id) ≡ false) cs × AreApart cs

-- A row of `chats` but for the time of its last message.
abbrev pub undated : Chat → Chat
undated c = record c { last_message_at = none }

-- Two stores are the same but for the times of the chats' last messages.
abbrev pub IsSame : Db → Db → Type 0
IsSame before after =
    (map undated after.chats ≡ map undated before.chats)
    × (after.messages ≡ before.messages)
    × (after.states ≡ before.states)
    × (after.last_chat_id ≡ before.last_chat_id)
    × (after.last_message_id ≡ before.last_message_id)

-- The ingest ends, adds nothing to the counts, and leaves the store the same.
abbrev pub IsIdle : Db → IngestDelta → Db × Reply IngestDelta → Type 0
IsIdle before d (db, offline text) = true ≡ false
IsIdle before d (db, got e) =
    (e.chats_added ≡ d.chats_added)
    × (e.chats_updated ≡ d.chats_updated)
    × (e.messages_added ≡ d.messages_added)
    × IsSame before db

undated-touched :
    (p : Chat → Bool) (t : String) (cs : List Chat)
    → map undated (update_where p (touch t) cs) ≡ map undated cs
undated-touched p t [] = refl
undated-touched p t (c ∷ cs) = elim (Bool-cases (p c)) [
  | inl e ↦ rw e (ap (λ xs. undated c ∷ xs) (undated-touched p t cs))
  | inr e ↦ rw e (ap (λ xs. undated c ∷ xs) (undated-touched p t cs))
]

insert_messages-IsSame :
    (i : ℕ) (ms : List MessageRecord) (db : Db)
    → All (λ m. is_stored i db m ≡ true) ms
    → IsSame db (insert_messages i ms db).0
unfolding insert_messages
insert_messages-IsSame i [] db h = (refl, refl, refl, refl, refl)
insert_messages-IsSame i (m ∷ ms) db h =
    let same = insert_all_stored i (m ∷ ms) db h in
    let t = latest_timestamp m.message_timestamp ms in
    (
      undated-touched (has_id i) t (insert_all i (m ∷ ms) db).chats
          ∙ ap (λ (x : Db). map undated x.chats) same,
      ap (λ (x : Db). x.messages) same,
      ap (λ (x : Db). x.states) same,
      ap (λ (x : Db). x.last_chat_id) same,
      ap (λ (x : Db). x.last_message_id) same,
    )

any-append :
    (p : StoredMessage → Bool) (xs ys : List StoredMessage)
    → any p xs ≡ true
    → any p (xs ++ ys) ≡ true
any-append p [] ys h = absurd (ground (arith, h))
any-append p (x ∷ xs) ys h = ground (arith, h, any-append p xs ys)

stored_kept :
    (i : ℕ) (before after : Db) (ms : List MessageRecord)
    → IsKept before after
    → All (λ m. is_stored i before m ≡ true) ms
    → All (λ m. is_stored i after m ≡ true) ms
stored_kept i before after ms v h =
    All-map _ _ ms
      (λ m e.
        rw v.messages
          (any-append (is_row_of i m.source_message_id) before.messages v.new_messages e))
      h

insert_messages-stored :
    (i : ℕ) (ms : List MessageRecord) (db : Db)
    → All (λ m. is_stored i db m ≡ true) ms
    → (insert_messages i ms db).1 ≡ 0
unfolding insert_messages
insert_messages-stored i [] db h = refl
insert_messages-stored i (m ∷ ms) db h =
    omega (arith, ap (λ (x : Db). length_of x.messages) (insert_all_stored i (m ∷ ms) db h))

module _ (clock : String → String) (listed : List ChatRecord)
    (records : String → List MessageRecord) where
  -- The chat is shown, and its messages are stored.
  abbrev IsSettled : ChatRecord → Db → Type 0
  IsSettled c db =
      (i : ℕ) × IsShown clock c i db.chats
      × All (λ m. is_stored i db m ≡ true) (records c.source_chat_id)

  ingest_chat-settles :
      (c : ChatRecord) (db : Db) (d : IngestDelta)
      → IsKeyed db
      → IsSettled c (ingest_chat clock (steady listed records) c db d).0
        × IsKeyed (ingest_chat clock (steady listed records) c db d).0
  unfolding ingest_chat
  ingest_chat-settles c db d k =
      let o = chat_id_for_source db c.source_chat_id c.source in
      let settled = settle_chat clock c o db d in
      let ms = records c.source_chat_id in
      (
        (
          settled.1,
          insert_messages-IsShown clock c settled.1 settled.1 ms settled.0
              (settle_chat-IsShown clock c db d o refl k),
          (insert_messages_idem settled.1 ms settled.0).2,
        ),
        insert_messages-IsKeyed clock settled.1 ms settled.0 (settle_chat-IsKeyed clock c db d o k),
      )

  ingest_chat-keeps :
      (c e : ChatRecord) (db : Db) (d : IngestDelta)
      → (e.source_chat_id == c.source_chat_id) ≡ false
      → IsKeyed db
      → IsSettled e db
      → IsSettled e (ingest_chat clock (steady listed records) c db d).0
  unfolding ingest_chat
  ingest_chat-keeps c e db d n k v =
      let o = chat_id_for_source db c.source_chat_id c.source in
      let settled = settle_chat clock c o db d in
      (
        v.0,
        insert_messages-IsShown clock e v.0 settled.1 (records c.source_chat_id) settled.0
            (settle_chat-other clock c e v.0 db d o n k v.1),
        stored_kept v.0 db _ (records e.source_chat_id)
            (ingest_chat-IsKept clock (steady listed records) c db d) v.2,
      )

  ingest_each-keeps :
      (e : ChatRecord) (cs : List ChatRecord) (db : Db) (d : IngestDelta)
      → All (λ c. (e.source_chat_id == c.source_chat_id) ≡ false) cs
      → IsKeyed db
      → IsSettled e db
      → IsSettled e (ingest_each clock (steady listed records) cs db d).0
  unfolding ingest_each ingest_chat
  ingest_each-keeps e [] db d n k v = v
  ingest_each-keeps e (c ∷ cs) db d n k v =
      ingest_each-keeps e cs (ingest_chat clock (steady listed records) c db d).0 _ n.1
        (ingest_chat-settles c db d k).1 (ingest_chat-keeps c e db d n.0 k v)

  ingest_each-settles :
      (cs : List ChatRecord) (db : Db) (d : IngestDelta)
      → AreApart cs
      → IsKeyed db
      → All (λ c. IsSettled c (ingest_each clock (steady listed records) cs db d).0) cs
  unfolding ingest_each ingest_chat
  ingest_each-settles [] db d a k = tt
  ingest_each-settles (c ∷ cs) db d a k =
      let one = ingest_chat-settles c db d k in
      let next = (ingest_chat clock (steady listed records) c db d).0 in
      (ingest_each-keeps c cs next _ a.0 one.1 one.0, ingest_each-settles cs next _ a.1 one.1)

  -- A settled chat adds nothing, and unsettles none.
  ingest_chat-IsIdle :
      (c : ChatRecord) (db : Db) (d : IngestDelta)
      → IsSettled c db
      → IsIdle db d (ingest_chat clock (steady listed records) c db d)
  unfolding ingest_chat
  ingest_chat-IsIdle c db d v = rw (settle_chat_idle clock c v.0 db d v.1) (
    refl,
    refl,
    omega (arith, insert_messages-stored v.0 (records c.source_chat_id) db v.2),
    insert_messages-IsSame v.0 (records c.source_chat_id) db v.2,
  )

  ingest_chat-stays :
      (c e : ChatRecord) (db : Db) (d : IngestDelta)
      → IsSettled c db
      → IsSettled e db
      → IsSettled e (ingest_chat clock (steady listed records) c db d).0
  unfolding ingest_chat
  ingest_chat-stays c e db d v u = (
    u.0,
    rw (settle_chat_idle clock c v.0 db d v.1)
        (insert_messages-IsShown clock e u.0 v.0 (records c.source_chat_id) db u.1),
    stored_kept u.0 db _ (records e.source_chat_id)
        (ingest_chat-IsKept clock (steady listed records) c db d) u.2,
  )

  IsIdle-trans :
      (before next : Db) (d e : IngestDelta) (r : Db × Reply IngestDelta)
      → IsIdle before d (next, got e)
      → IsIdle next e r
      → IsIdle before d r
  IsIdle-trans before next d e (db, offline text) h v = v
  IsIdle-trans before next d e (db, got x) (h1, h2, h3, (a1, a2, a3, a4, a5))
        (v1, v2, v3, (b1, b2, b3, b4, b5)) =
      (v1 ∙ h1, v2 ∙ h2, v3 ∙ h3, (b1 ∙ a1, b2 ∙ a2, b3 ∙ a3, b4 ∙ a4, b5 ∙ a5))

  ingest_each-IsIdle :
      (cs : List ChatRecord) (db : Db) (d : IngestDelta)
      → All (λ c. IsSettled c db) cs
      → IsIdle db d (ingest_each clock (steady listed records) cs db d)
  unfolding ingest_each ingest_chat
  ingest_each-IsIdle [] db d v = (refl, refl, refl, (refl, refl, refl, refl, refl))
  ingest_each-IsIdle (c ∷ cs) db d v =
      let settled = settle_chat clock c (chat_id_for_source db c.source_chat_id c.source) db d in
      let (next, noted) =
        take_in clock settled.1 (records c.source_chat_id) settled.0 (seen clock settled.2) in
      IsIdle-trans db next d noted (ingest_each clock (steady listed records) cs next noted)
        (ingest_chat-IsIdle c db d v.0)
        (ingest_each-IsIdle cs next noted
          (All-map _ _ cs (λ e u. ingest_chat-stays c e db d v.0 u) v.1))

  source_chat_id-tagged :
      (source : String) (c : ChatRecord) → (tagged clock source c).source_chat_id ≡ c.source_chat_id
  source_chat_id-tagged source c = elim (Bool-cases (c.source == source)) [
    | inl t ↦ rw t refl
    | inr t ↦ rw t refl
  ]

  apart-tagged :
      (source : String) (c : ChatRecord) (cs : List ChatRecord)
      → All (λ e. (c.source_chat_id == e.source_chat_id) ≡ false) cs
      → All
          (λ e. ((tagged clock source c).source_chat_id == e.source_chat_id) ≡ false)
          (map (tagged clock source) cs)
  apart-tagged source c [] a = tt
  apart-tagged source c (e ∷ cs) a = (
    ap (λ s. s == (tagged clock source e).source_chat_id) (source_chat_id-tagged source c)
        ∙ ap (λ s. c.source_chat_id == s) (source_chat_id-tagged source e)
        ∙ a.0,
    apart-tagged source c cs a.1,
  )

  AreApart-tagged :
      (source : String) (cs : List ChatRecord)
      → AreApart cs
      → AreApart (map (tagged clock source) cs)
  AreApart-tagged source [] a = tt
  AreApart-tagged source (c ∷ cs) a = (apart-tagged source c cs a.0, AreApart-tagged source cs a.1)

-- What is settled does not depend on the time of a write.
later-IsSettled :
    (clock later : String → String) (listed : List ChatRecord)
    (records : String → List MessageRecord) (c : ChatRecord) (db : Db)
    → IsSettled clock listed records c db
    → IsSettled later listed records c db
later-IsSettled clock later listed records c db (i, v, h) =
    (i, IsShown-later clock later c i db.chats v, h)

-- Where the ids of the stored chats are a key, and the source lists no chat twice: once its chats and
-- messages are ingested, a second ingest of the same source, at whatever time, ends, counts no chat and
-- no message as added or updated, and leaves the messages, the cursors and the chats of the store as
-- they are, where the time of a chat's last message is not compared.
pub ingest_chats-IsIdle :
    (clock later : String → String) (listed : List ChatRecord)
    (records : String → List MessageRecord) (source : String) (db : Db)
    → AreApart listed
    → IsKeyed db
    → IsIdle (ingest_chats clock (steady listed records) source db).0 no_delta (
        ingest_chats later
          (steady listed records)
          source
          (ingest_chats clock (steady listed records) source db).0)
unfolding ingest_chats
ingest_chats-IsIdle clock later listed records source db a k =
    let chats = map (tagged clock source) listed in
    ingest_each-IsIdle later listed records chats _ no_delta (
      All-map _ _ chats
        (λ c v.
          later-IsSettled clock later listed records c
            (ingest_each clock (steady listed records) chats db no_delta).0 v)
        (ingest_each-settles clock listed records chats db no_delta
          (AreApart-tagged clock listed records source listed a) k))
