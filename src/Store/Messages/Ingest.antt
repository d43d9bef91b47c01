-- ===== src/Store/Messages/Ingest.antt =====
-- Ingest is idempotent, and what it adds lies past every cursor.
use whatsapp_radar.Base.{
  ℕ, suc, ◌≤◌, ◌<◌, ◌≡◌, refl, sym, ap, ◌∙◌, inl, inr, Bool, true, ◌||◌, Option, none, some, List,
  [], ◌∷◌, ◌++◌, append_assoc, append-nil, arith, eq_refl, eqb_refl, any, All, All-append, All-map,
  Bool-cases,
}
use whatsapp_radar.Store.Rows.{MessageRecord, StoredMessage, Db}
use whatsapp_radar.Store.Messages.{
  is_row_of, new_row, insert_or_ignore, insert_all, insert_messages, length_of, cursor, is_past,
  is_new,
}

-- The chat has a row for the record.
abbrev pub is_stored : ℕ → Db → MessageRecord → Bool
is_stored c db m = any (is_row_of c m.source_message_id) db.messages

any-append :
    (p : StoredMessage → Bool) (xs ys : List StoredMessage)
    → any p (xs ++ ys) ≡ any p xs || any p ys
any-append p [] ys = refl
any-append p (x ∷ xs) ys = ground (arith, any-append p xs ys)

stored-insert_or_ignore :
    (c : ℕ) (m : MessageRecord) (db : Db) → is_stored c (insert_or_ignore c m db) m ≡ true
unfolding insert_or_ignore
stored-insert_or_ignore c m db = elim (Bool-cases (is_stored c db m)) [
  | inl e ↦ rw e e
  | inr e ↦ rw e (
      any-append (is_row_of c m.source_message_id) db.messages _
      ∙ rw (e, eqb_refl c, eq_refl m.source_message_id) refl)
]

stored_stays :
    (c : ℕ) (m x : MessageRecord) (db : Db)
    → is_stored c db x ≡ true
    → is_stored c (insert_or_ignore c m db) x ≡ true
unfolding insert_or_ignore
stored_stays c m x db h = elim (Bool-cases (is_stored c db m)) [
  | inl e ↦ rw e h
  | inr e ↦ rw e (any-append (is_row_of c x.source_message_id) db.messages _ ∙ rw h refl)
]

stored_stays_all :
    (c : ℕ) (ms : List MessageRecord) (x : MessageRecord) (db : Db)
    → is_stored c db x ≡ true
    → is_stored c (insert_all c ms db) x ≡ true
unfolding insert_all
stored_stays_all c [] x db h = h
stored_stays_all c (m ∷ ms) x db h =
    stored_stays_all c ms x (insert_or_ignore c m db) (stored_stays c m x db h)

All-stored :
    (c : ℕ) (ms : List MessageRecord) (db : Db)
    → All (λ m. is_stored c (insert_all c ms db) m ≡ true) ms
unfolding insert_all
All-stored c [] db = tt
All-stored c (m ∷ ms) db = (
  stored_stays_all c ms m (insert_or_ignore c m db) (stored-insert_or_ignore c m db),
  All-stored c ms (insert_or_ignore c m db),
)

pub insert_all_stored :
    (c : ℕ) (ms : List MessageRecord) (db : Db)
    → All (λ m. is_stored c db m ≡ true) ms
    → insert_all c ms db ≡ db
unfolding insert_all
insert_all_stored c [] db h = refl
insert_all_stored c (m ∷ ms) db h =
    let same : insert_or_ignore c m db ≡ db = unfold insert_or_ignore in rw h.0 refl in
    rw same (insert_all_stored c ms db h.1)

-- A second delivery of the same messages to the same chat creates no row, and leaves the messages as
-- they are; after the first, each of them has its row.
pub insert_messages_idem :
    (c : ℕ) (ms : List MessageRecord) (db : Db)
    → ((insert_messages c ms (insert_messages c ms db).0).1 ≡ 0)
      × ((insert_messages c ms (insert_messages c ms db).0).0.messages
          ≡ (insert_messages c ms db).0.messages)
      × All (λ m. is_stored c (insert_messages c ms db).0 m ≡ true) ms
unfolding insert_messages
insert_messages_idem c [] db = (refl, refl, tt)
insert_messages_idem c (m ∷ ms) db =
    let first = (insert_messages c (m ∷ ms) db).0 in
    let stored : All (λ x. is_stored c first x ≡ true) (m ∷ ms) = All-stored c (m ∷ ms) db in
    let again : (insert_all c (m ∷ ms) first).messages ≡ first.messages =
      ap (λ (d : Db). d.messages) (insert_all_stored c (m ∷ ms) first stored) in
    (omega (arith, ap length_of again), again, stored)

-- What a call of `insert_all` added: rows of the chat with ids above the sequence as it was.
record Added (c : ℕ) (db after : Db) : Type 0 where
  rows : List StoredMessage
  split : after.messages ≡ db.messages ++ rows
  fresh : All (λ m. (m.chat_id ≡ c) × (db.last_message_id < m.id)) rows
  grows : db.last_message_id ≤ after.last_message_id
  states : after.states ≡ db.states

insert_or_ignore-Added :
    (c : ℕ) (m : MessageRecord) (db : Db) → Added c db (insert_or_ignore c m db)
unfolding insert_or_ignore
insert_or_ignore-Added c m db = elim (Bool-cases (is_stored c db m)) [
  | inl e ↦ rw e (record {
    rows = [];
    split = sym (append-nil db.messages);
    fresh = tt;
    grows = omega arith;
    states = refl;
  })
  | inr e ↦ rw e (record {
    rows = new_row (suc db.last_message_id) c m ∷ [];
    split = refl;
    fresh = ((refl, omega arith), tt);
    grows = omega arith;
    states = refl;
  })
]

insert_all-Added : (c : ℕ) (ms : List MessageRecord) (db : Db) → Added c db (insert_all c ms db)
unfolding insert_all
insert_all-Added c [] db = record {
  rows = [];
  split = sym (append-nil db.messages);
  fresh = tt;
  grows = omega arith;
  states = refl;
}
insert_all-Added c (m ∷ ms) db =
    let one = insert_or_ignore-Added c m db in
    let more = insert_all-Added c ms (insert_or_ignore c m db) in
    record {
      rows = one.rows ++ more.rows;
      split = more.split ∙ rw one.split (append_assoc db.messages one.rows more.rows);
      fresh =
          All-append _ one.rows more.rows one.fresh
            (All-map _ _ more.rows (λ x h. (h.0, omega (arith, h.1, one.grows))) more.fresh);
      grows = omega (arith, one.grows, more.grows);
      states = more.states ∙ one.states;
    }

past_cursor :
    (o : Option ℕ) (n i : ℕ) → ((mid : ℕ) → o ≡ some mid → mid ≤ n) → n < i → is_past o i ≡ true
past_cursor none n i h k = refl
past_cursor (some mid) n i h k = ground (arith, h mid refl)

-- Where the chat's cursor is no larger than the largest id given so far, the ingest keeps every row
-- in place and appends rows that are all past the cursor.
pub insert_messages_new :
    (c : ℕ) (ms : List MessageRecord) (db : Db)
    → ((mid : ℕ) → cursor db c ≡ some mid → mid ≤ db.last_message_id)
    → (rows : List StoredMessage) × ((insert_messages c ms db).0.messages ≡ db.messages ++ rows)
      × All (λ m. is_new (insert_messages c ms db).0 c m ≡ true) rows
unfolding insert_messages cursor
insert_messages_new c [] db h = ([], sym (append-nil db.messages), tt)
insert_messages_new c (m ∷ ms) db h =
    let added = insert_all-Added c (m ∷ ms) db in
    (
      added.rows,
      added.split,
      All-map _ _ added.rows
          (λ x f.
            rw (f.0, eqb_refl c, added.states)
              (past_cursor (cursor db c) db.last_message_id x.id h f.1))
          added.fresh,
    )
