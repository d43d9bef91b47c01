-- ===== src/Sync/Shown.antt =====
-- src/db/sync.py: the chats that the store has as their source shows them, through the writes of an ingest.
use whatsapp_radar.Base.{
  ℕ, suc, ◌≤◌, String, ◌≡◌, refl, subst, ◌∙◌, inl, inr, Bool, true, false, Option, none, some, List,
  [], ◌∷◌, ◌++◌, arith, ◌==◌, eq_iff, eq_refl, eqb_refl, find, any, All-append, update_where, All,
  All-map, Bool-cases, Option-cases, if◌then◌else◌,
}
use whatsapp_radar.Store.Rows.{ChatRecord, Chat, MessageRecord, Db}
use whatsapp_radar.Store.Chats.{chat_id_for_source, get_chat, upsert_chat, same_identity, has_id}
use whatsapp_radar.Store.Messages.{
  insert_messages, insert_all, insert_or_ignore, new_row, touch, latest_timestamp, is_row_of,
}
use whatsapp_radar.Sync.{IngestDelta, settle_chat, differs}
use whatsapp_radar.Sync.Counts.{insert_all-grows}
use whatsapp_radar.Sync.Keyed.{
  IsKeyed, find-has_id, DistinctIds-update_where, below-update_where, DistinctIds-append, find-past,
  find-update_where, find-append, find-last,
}

-- The chat has a row of the id, with the name and the type of the record.
pub record IsShown (clock : String → String) (c : ChatRecord) (i : ℕ) (cs : List Chat)
    : Type 0 where
  row : Chat
  is : row.id ≡ i
  found : find (same_identity c.source c.source_chat_id) cs ≡ some row
  keyed : find (has_id i) cs ≡ some row
  same : differs clock c (some row) ≡ false

-- A function of rows that an ingest applies: it leaves the identity alone.
record IsTame (f : Chat → Chat) : Type 0 where
  id : (x : Chat) → (f x).id ≡ x.id
  source : (x : Chat) → (f x).source ≡ x.source
  source_chat_id : (x : Chat) → (f x).source_chat_id ≡ x.source_chat_id

same_identity-tame :
    (f : Chat → Chat) (s i : String)
    → IsTame f
    → (x : Chat) → same_identity s i (f x) ≡ same_identity s i x
same_identity-tame f s i h x = rw (h.source x, h.source_chat_id x) refl

has_id-tame : (f : Chat → Chat) (i : ℕ) → IsTame f → (x : Chat) → has_id i (f x) ≡ has_id i x
has_id-tame f i h x = rw (h.id x) refl

module _ (clock : String → String) where
  -- A chat stays shown where the rows of the store are updated tamely, when its own row, if it is
  -- updated, keeps name and type.
  IsShown-update :
      (c : ChatRecord) (i : ℕ) (cs : List Chat) (p : Chat → Bool) (f : Chat → Chat)
      → IsTame f
      → (v : IsShown clock c i cs)
      → differs clock c (some (if p v.row then f v.row else v.row)) ≡ false
      → IsShown clock c i (update_where p f cs)
  IsShown-update c i cs p f h v e = record {
    row = if p v.row then f v.row else v.row;
    is = same_id (p v.row);
    found =
        find-update_where (same_identity c.source c.source_chat_id) p f cs v.row
          (same_identity-tame f c.source c.source_chat_id h) v.found;
    keyed = find-update_where (has_id i) p f cs v.row (has_id-tame f i h) v.keyed;
    same = e;
  }
    where
      same_id : (b : Bool) → (if b then f v.row else v.row).id ≡ i
      same_id true = h.id v.row ∙ v.is
      same_id false = v.is

  IsShown-append :
      (c : ChatRecord) (i : ℕ) (cs more : List Chat)
      → IsShown clock c i cs
      → IsShown clock c i (cs ++ more)
  IsShown-append c i cs more v = record {
    row = v.row;
    is = v.is;
    found = find-append (same_identity c.source c.source_chat_id) cs more v.row v.found;
    keyed = find-append (has_id i) cs more v.row v.keyed;
    same = v.same;
  }

  touch-IsTame : (t : String) → IsTame (touch t)
  touch-IsTame t = record { id = λ x. refl; source = λ x. refl; source_chat_id = λ x. refl }

  touched_same :
      (c : ChatRecord) (t : String) (b : Bool) (row : Chat)
      → differs clock c (some row) ≡ false
      → differs clock c (some (if b then touch t row else row)) ≡ false
  touched_same c t true row h = h
  touched_same c t false row h = h

  -- The messages of a chat leave every chat shown, under its id.
  pub insert_messages-IsShown :
      (c : ChatRecord) (j i : ℕ) (ms : List MessageRecord) (db : Db)
      → IsShown clock c j db.chats
      → IsShown clock c j (insert_messages i ms db).0.chats
  unfolding insert_messages
  insert_messages-IsShown c j i [] db v = v
  insert_messages-IsShown c j i (m ∷ ms) db v =
      let t = latest_timestamp m.message_timestamp ms in
      rw (insert_all-grows i (m ∷ ms) db).1 (
        IsShown-update c j db.chats (has_id i) (touch t) (touch-IsTame t) v
          (touched_same c t (has_id i v.row) v.row v.same))

  abbrev refreshed : ChatRecord → Chat → Chat
  refreshed c x = record x {
    display_name = c.display_name;
    chat_type = c.chat_type;
    last_seen_at = clock c.source_chat_id;
  }

  refreshed-IsTame : (c : ChatRecord) → IsTame (refreshed c)
  refreshed-IsTame c = record { id = λ x. refl; source = λ x. refl; source_chat_id = λ x. refl }

  -- Another chat is another row.
  other_row :
      (c e : ChatRecord) (row : Chat)
      → (e.source_chat_id == c.source_chat_id) ≡ false
      → same_identity e.source e.source_chat_id row ≡ true
      → same_identity c.source c.source_chat_id row ≡ false
  other_row c e row n t = ground (
    arith,
    eq_iff row.source_chat_id e.source_chat_id,
    eq_iff row.source_chat_id c.source_chat_id,
    eq_iff e.source_chat_id c.source_chat_id,
  )

  entered : ChatRecord → ℕ → Chat
  entered c i = record {
    id = i;
    source = c.source;
    source_chat_id = c.source_chat_id;
    display_name = c.display_name;
    alias = none;
    chat_type = c.chat_type;
    status = "discovered";
    first_seen_at = clock c.source_chat_id;
    last_seen_at = clock c.source_chat_id;
    last_message_at = none;
    parent_chat_id = none;
  }

  entered-IsShown :
      (c : ChatRecord) (n : ℕ) (cs : List Chat)
      → find (same_identity c.source c.source_chat_id) cs ≡ none
      → All (λ x. x.id ≤ n) cs
      → IsShown clock c (suc n) (cs ++ entered c (suc n) ∷ [])
  unfolding entered
  entered-IsShown c n cs f b = record {
    row = entered c (suc n);
    is = refl;
    found =
        find-last (same_identity c.source c.source_chat_id) cs (entered c (suc n)) f
          (rw (eq_refl c.source, eq_refl c.source_chat_id) refl);
    keyed = find-last (has_id (suc n)) cs (entered c (suc n)) (find-past n cs b) (eqb_refl (suc n));
    same = rw (eq_refl c.display_name, eq_refl c.chat_type) refl;
  }

  renewed-IsShown :
      (c : ChatRecord) (cs : List Chat) (row : Chat)
      → find (same_identity c.source c.source_chat_id) cs ≡ some row
      → find (has_id row.id) cs ≡ some row
      → same_identity c.source c.source_chat_id row ≡ true
      → IsShown clock c row.id
          (update_where (same_identity c.source c.source_chat_id) (refreshed c) cs)
  renewed-IsShown c cs row f k t =
      let q = same_identity c.source c.source_chat_id in
      let tame = refreshed-IsTame c in
      record {
        row = refreshed c row;
        is = refl;
        found = rw t at (
            find-update_where q q (refreshed c) cs row
              (same_identity-tame (refreshed c) c.source c.source_chat_id tame) f);
        keyed = rw t at (
            find-update_where (has_id row.id) q (refreshed c) cs row
              (has_id-tame (refreshed c) row.id tame) k);
        same = rw (eq_refl c.display_name, eq_refl c.chat_type) refl;
      }

  upsert_chat-IsKeyed :
      (c : ChatRecord) (db : Db)
      → IsKeyed db
      → IsKeyed (upsert_chat (clock c.source_chat_id) c db).0
  unfolding upsert_chat
  upsert_chat-IsKeyed c db k =
      elim (Option-cases (find (same_identity c.source c.source_chat_id) db.chats)) [
        | inl f ↦
            rw (upsert_chat, f)
              (
                DistinctIds-append db.chats _ db.last_chat_id refl k.1 k.0,
                All-append (λ x. x.id ≤ suc db.last_chat_id) db.chats _
                    (All-map _ _ db.chats (λ x h. omega (arith, h)) k.1) (omega arith, tt),
              )
        | inr (row, f) ↦
            rw (upsert_chat, f)
              (
                DistinctIds-update_where _ (refreshed c) (λ x. refl) db.chats k.0,
                below-update_where _ (refreshed c) (λ x. refl) db.last_chat_id db.chats k.1,
              )
      ]

  upsert_chat-other :
      (c e : ChatRecord) (j : ℕ) (db : Db)
      → (e.source_chat_id == c.source_chat_id) ≡ false
      → IsKeyed db
      → IsShown clock e j db.chats
      → IsShown clock e j (upsert_chat (clock c.source_chat_id) c db).0.chats
  unfolding upsert_chat
  upsert_chat-other c e j db n k v =
      elim (Option-cases (find (same_identity c.source c.source_chat_id) db.chats)) [
        | inl f ↦ rw (upsert_chat, f) (IsShown-append e j db.chats _ v)
        | inr (row, f) ↦
            rw (upsert_chat, f)
              (IsShown-update e j db.chats (same_identity c.source c.source_chat_id) (refreshed c)
                (refreshed-IsTame c) v
                (rw
                  (other_row c e v.row n
                    (find-has_id (same_identity e.source e.source_chat_id) db.chats v.row k.0
                      v.found).1)
                  v.same))
      ]

  -- What the chat's part of the loop body establishes for the chat itself, and keeps for another.
  pub settle_chat-IsShown :
      (c : ChatRecord) (db : Db) (d : IngestDelta) (o : Option ℕ)
      → chat_id_for_source db c.source_chat_id c.source ≡ o
      → IsKeyed db
      → IsShown clock c (settle_chat clock c o db d).1 (settle_chat clock c o db d).0.chats
  unfolding settle_chat chat_id_for_source upsert_chat get_chat
  settle_chat-IsShown c db d none e k =
      elim (Option-cases (find (same_identity c.source c.source_chat_id) db.chats)) [
        | inl f ↦
            rw (upsert_chat, f) (unfold entered in entered-IsShown c db.last_chat_id db.chats f k.1)
        | inr (row, f) ↦ absurd (ground (arith, rw (chat_id_for_source, f) at e))
      ]
  settle_chat-IsShown c db d (some i) e k =
      elim (Option-cases (find (same_identity c.source c.source_chat_id) db.chats)) [
        | inl f ↦ absurd (ground (arith, rw (chat_id_for_source, f) at e))
        | inr (row, f) ↦
            let e' : some row.id ≡ some i = rw (chat_id_for_source, f) at e in
            let is : row.id ≡ i = cc in
            let own = find-has_id (same_identity c.source c.source_chat_id) db.chats row k.0 f in
            let keyed : get_chat db i ≡ some row =
              subst (λ j. find (has_id j) db.chats ≡ some row) is own.0 in
            elim (Bool-cases (differs clock c (get_chat db i))) [
              | inl t ↦ rw t (
                  rw (upsert_chat, f)
                    (subst
                      (λ j. IsShown clock c j (
                        update_where (same_identity c.source c.source_chat_id) (refreshed c)
                          db.chats))
                      is (renewed-IsShown c db.chats row f own.0 own.1)))
              | inr t ↦
                  rw t
                    (record { row = row; is = is; found = f; keyed = keyed; same = rw keyed at t })
            ]
      ]

  pub settle_chat-other :
      (c e : ChatRecord) (j : ℕ) (db : Db) (d : IngestDelta) (o : Option ℕ)
      → (e.source_chat_id == c.source_chat_id) ≡ false
      → IsKeyed db
      → IsShown clock e j db.chats
      → IsShown clock e j (settle_chat clock c o db d).0.chats
  unfolding settle_chat
  settle_chat-other c e j db d none n k v = upsert_chat-other c e j db n k v
  settle_chat-other c e j db d (some i) n k v =
      elim (Bool-cases (differs clock c (get_chat db i))) [
        | inl t ↦ rw t (upsert_chat-other c e j db n k v)
        | inr t ↦ rw t v
      ]

  pub settle_chat-IsKeyed :
      (c : ChatRecord) (db : Db) (d : IngestDelta) (o : Option ℕ)
      → IsKeyed db
      → IsKeyed (settle_chat clock c o db d).0
  unfolding settle_chat
  settle_chat-IsKeyed c db d none k = upsert_chat-IsKeyed c db k
  settle_chat-IsKeyed c db d (some i) k = elim (Bool-cases (differs clock c (get_chat db i))) [
    | inl t ↦ rw t (upsert_chat-IsKeyed c db k)
    | inr t ↦ rw t k
  ]

  insert_all-last :
      (i : ℕ) (ms : List MessageRecord) (db : Db)
      → (insert_all i ms db).last_chat_id ≡ db.last_chat_id
  unfolding insert_all insert_or_ignore
  insert_all-last i [] db = refl
  insert_all-last i (m ∷ ms) db =
      insert_all-last i ms (insert_or_ignore i m db)
      ∙ one (any (is_row_of i m.source_message_id) db.messages)
    where
      one :
          (b : Bool)
          → (if b then db else record db {
            messages = db.messages ++ new_row (suc db.last_message_id) i m ∷ [];
            last_message_id = suc db.last_message_id;
          }).last_chat_id
            ≡ db.last_chat_id
      one true = refl
      one false = refl

  pub insert_messages-IsKeyed :
      (i : ℕ) (ms : List MessageRecord) (db : Db) → IsKeyed db → IsKeyed (insert_messages i ms db).0
  unfolding insert_messages
  insert_messages-IsKeyed i [] db k = k
  insert_messages-IsKeyed i (m ∷ ms) db k =
      let t = latest_timestamp m.message_timestamp ms in
      let chats = (insert_all-grows i (m ∷ ms) db).1 in
      (
        DistinctIds-update_where (has_id i) (touch t) (λ x. refl) _ (rw chats k.0),
        below-update_where (has_id i) (touch t) (λ x. refl) _ _
            (rw (insert_all-last i (m ∷ ms) db, chats) k.1),
      )

  -- A chat that is shown has nothing to settle.
  pub settle_chat_idle :
      (c : ChatRecord) (i : ℕ) (db : Db) (d : IngestDelta)
      → IsShown clock c i db.chats
      → settle_chat clock c (chat_id_for_source db c.source_chat_id c.source) db d ≡ (db, i, d)
  unfolding settle_chat chat_id_for_source get_chat
  settle_chat_idle c i db d v = rw (settle_chat, v.found, v.is, v.keyed, v.same) refl

-- Whether a chat is shown does not depend on the time of a write.
pub IsShown-later :
    (clock later : String → String) (c : ChatRecord) (i : ℕ) (cs : List Chat)
    → IsShown clock c i cs
    → IsShown later c i cs
IsShown-later clock later c i cs v = record {
  row = v.row;
  is = v.is;
  found = v.found;
  keyed = v.keyed;
  same = v.same;
}
