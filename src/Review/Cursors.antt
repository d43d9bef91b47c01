-- ===== src/Review/Cursors.antt =====
-- No message of a delta is skipped by the cursors, and none that was analysed comes back.
use whatsapp_radar.Base.{
  ℕ, ◌≤◌, String, ◌≡◌, refl, sym, ap, subst, ◌∙◌, inl, inr, Bool, true, false, not, Option, none,
  some, List, [], ◌∷◌, ◌++◌, arith, ◌&&◌, map, eqb, eqb_iff, eqb_refl, leb, ltb, select, any,
  any-select, flatten, All, All-append, append-nil, append_assoc, Bool-cases,
}
use whatsapp_radar.Base.Eq.{row_id_key}
use whatsapp_radar.Base.Groups.{
  Groups, append_to, popped, IsDistinct, Lacks, IsDistinct-append_to, popped-append_to,
}
use whatsapp_radar.Store.Rows.{StoredMessage, Db}
use whatsapp_radar.Base.Sort.{All-sort}
use whatsapp_radar.Store.Chats.{family_member_ids}
use whatsapp_radar.Store.Messages.{
  cursor, is_past, is_new, last_by_id, leb_sent, messages_since_cursor, family_delta_since_cursor,
}
use whatsapp_radar.Store.Messages.Cursor.{
  cursor-advance, last_by_id-bounds, All-last_by_id, last_by_id-among,
}
use whatsapp_radar.Review.{
  barrier, is_before, hold_back_if_transcribing, by_chat, advance_groups, advance_family_cursors,
}

abbrev pub of_chat : ℕ → List StoredMessage → List StoredMessage
of_chat k = select (λ m. eqb m.chat_id k)

popped-by_chat :
    (k : ℕ) (g : Groups ℕ StoredMessage) (ms : List StoredMessage)
    → popped k (by_chat g ms) ≡ popped k g ++ of_chat k ms
unfolding by_chat
popped-by_chat k g [] = sym (append-nil (popped k g))
popped-by_chat k g (m ∷ ms) = elim (Bool-cases (eqb m.chat_id k)) [
  | inl e ↦ rw e (
      popped-by_chat k (append_to m.chat_id m g) ms
      ∙ rw (popped-append_to, e) (append_assoc (popped k g) (m ∷ []) (of_chat k ms)))
  | inr e ↦ rw e (popped-by_chat k (append_to m.chat_id m g) ms ∙ rw (popped-append_to, e) refl)
]

IsDistinct-by_chat :
    (g : Groups ℕ StoredMessage) (ms : List StoredMessage)
    → IsDistinct g
    → IsDistinct (by_chat g ms)
unfolding by_chat
IsDistinct-by_chat g [] h = h
IsDistinct-by_chat g (m ∷ ms) h =
    IsDistinct-by_chat (append_to m.chat_id m g) ms (IsDistinct-append_to m.chat_id m g h)

-- The cursor after its chat's messages were consumed: their greatest id, or what it was.
abbrev pub moved : List StoredMessage → Option ℕ → Option ℕ
moved [] old = old
moved (m ∷ ms) old = some (last_by_id m ms).id

-- The new cursor over some messages and an old one: an id of theirs that no other exceeds, or the old.
abbrev pub IsGreatest : List StoredMessage → Option ℕ → Option ℕ → Type 0
IsGreatest [] old new = new ≡ old
IsGreatest (m ∷ ms) old new =
    (i : ℕ) × (new ≡ some i)
    × All (λ x. x.id ≤ i) (m ∷ ms)
    × (any (λ x. eqb x.id i) (m ∷ ms) ≡ true)

IsGreatest-moved : (ms : List StoredMessage) (old : Option ℕ) → IsGreatest ms old (moved ms old)
IsGreatest-moved [] old = refl
IsGreatest-moved (m ∷ ms) old =
    ((last_by_id m ms).id, refl, last_by_id-bounds m ms, last_by_id-among m ms)

module _ (now : String) (head : ℕ) (summary : Option String) where
  cursor-advance_lacking :
      (g : Groups ℕ StoredMessage) (db : Db) (k : ℕ)
      → Lacks k g
      → cursor (advance_groups now head summary g db) k ≡ cursor db k
  unfolding advance_groups
  cursor-advance_lacking [] db k h = refl
  cursor-advance_lacking ((c, []) ∷ g) db k h = cursor-advance_lacking g db k h.1
  cursor-advance_lacking ((c, m ∷ ms) ∷ g) db k h =
      cursor-advance_lacking g _ k h.1 ∙ cursor-advance now c _ _ _ db k ∙ rw h.0 refl

  cursor-advance_groups :
      (g : Groups ℕ StoredMessage) (db : Db) (k : ℕ)
      → IsDistinct g
      → cursor (advance_groups now head summary g db) k ≡ moved (popped k g) (cursor db k)
  unfolding advance_groups popped
  cursor-advance_groups [] db k h = refl
  cursor-advance_groups ((c, []) ∷ g) db k h = elim (Bool-cases (eqb c k)) [
    | inl e ↦ rw e (cursor-advance_lacking g db k (rw ((eqb_iff c k).0 e) at h.0))
    | inr e ↦ rw e (cursor-advance_groups g db k h.1)
  ]
  cursor-advance_groups ((c, m ∷ ms) ∷ g) db k h = elim (Bool-cases (eqb c k)) [
    | inl e ↦ rw e (
        cursor-advance_lacking g _ k (rw ((eqb_iff c k).0 e) at h.0)
        ∙ cursor-advance now c _ _ _ db k
        ∙ rw e refl)
    | inr e ↦ rw e (
        cursor-advance_groups g _ k h.1
        ∙ ap (moved (popped k g)) (cursor-advance now c _ _ _ db k ∙ rw e refl))
  ]

  cursor-moved :
      (delta : List StoredMessage) (db : Db) (k : ℕ)
      → cursor (advance_family_cursors now head delta summary db) k
        ≡ moved (of_chat k delta) (cursor db k)
  unfolding advance_family_cursors popped
  cursor-moved delta db k =
      cursor-advance_groups (by_chat [] delta) db k (IsDistinct-by_chat [] delta tt)
      ∙ ap (λ ms. moved ms (cursor db k)) (popped-by_chat k [] delta)

  -- After the family's cursors are advanced over a delta, the cursor of every chat is the id of one of
  -- its messages of the delta, and none of them has a greater one; where the delta has none of the
  -- chat, the cursor is what it was.
  pub cursor-advance_family :
      (delta : List StoredMessage) (db : Db) (k : ℕ)
      → IsGreatest
          (of_chat k delta)
          (cursor db k)
          (cursor (advance_family_cursors now head delta summary db) k)
  cursor-advance_family delta db k =
      subst (IsGreatest (of_chat k delta) (cursor db k)) (sym (cursor-moved delta db k))
        (IsGreatest-moved (of_chat k delta) (cursor db k))

-- Which messages of the delta wait for a transcript: those from the barrier on.
abbrev pub is_held : Option ℕ → StoredMessage → Bool
is_held none m = false
is_held (some b) m = leb b m.id

All-select_before :
    (b : Option ℕ) (ms : List StoredMessage)
    → All (λ x. is_before b x ≡ true) (select (is_before b) ms)
All-select_before b [] = tt
All-select_before b (m ∷ ms) = elim (Bool-cases (is_before b m)) [
  | inl e ↦ rw e (e, All-select_before b ms)
  | inr e ↦ rw e (All-select_before b ms)
]

All-of_chat :
    (P : StoredMessage → Type 0) (k : ℕ) (ms : List StoredMessage) → All P ms → All P (of_chat k ms)
All-of_chat P k [] a = tt
All-of_chat P k (m ∷ ms) a = elim (Bool-cases (eqb m.chat_id k)) [
  | inl e ↦ rw e (a.0, All-of_chat P k ms a.1)
  | inr e ↦ rw e (All-of_chat P k ms a.1)
]

-- A message that was consumed is not past the moved cursor.
consumed_behind :
    (i : ℕ) (ms : List StoredMessage) (old : Option ℕ)
    → any (λ x. eqb x.id i) ms ≡ true
    → is_past (moved ms old) i ≡ false
consumed_behind i [] old h = cc
consumed_behind i (m ∷ ms) old h = go (m ∷ ms) (last_by_id-bounds m ms) h
  where
    go :
        (xs : List StoredMessage)
        → All (λ x. x.id ≤ (last_by_id m ms).id) xs
        → any (λ x. eqb x.id i) xs ≡ true
        → ltb (last_by_id m ms).id i ≡ false
    go [] a e = cc
    go (x ∷ xs) a e = elim (Bool-cases (eqb x.id i)) [
      | inl f ↦ ground (arith, a.0)
      | inr f ↦ go xs a.1 (rw f at e)
    ]

-- A message past the old cursor and not before the barrier is past the moved cursor.
held_past :
    (b : Option ℕ) (m : StoredMessage) (ms : List StoredMessage) (old : Option ℕ)
    → All (λ x. is_before b x ≡ true) ms
    → is_before b m ≡ false
    → is_past old m.id ≡ true
    → is_past (moved ms old) m.id ≡ true
held_past b m [] old a h p = p
held_past none m (x ∷ xs) old a h p = cc
held_past (some b) m (x ∷ xs) old a h p =
    let before = All-last_by_id (λ y. is_before (some b) y ≡ true) x xs a.0 a.1 in ground arith

-- The barrier that the hold-back applies: none where transcription is switched off.
abbrev pub barrier_if : Bool → List StoredMessage → Option ℕ
barrier_if true delta = barrier delta
barrier_if false delta = none

select_all : (ms : List StoredMessage) → ms ≡ select (is_before none) ms
select_all [] = refl
select_all (m ∷ ms) = ap (λ xs. m ∷ xs) (select_all ms)

hold_back-select :
    (delta : List StoredMessage) (enabled : Bool)
    → hold_back_if_transcribing delta enabled ≡ select (is_before (barrier_if enabled delta)) delta
unfolding hold_back_if_transcribing
hold_back-select delta true = refl
hold_back-select delta false = select_all delta

module _ (now : String) (head : ℕ) (summary : Option String) (enabled : Bool) (db : Db)
    (delta : List StoredMessage) where
  abbrev after : Db
  after = advance_family_cursors now head (hold_back_if_transcribing delta enabled) summary db

  -- `m` stands in the delta.
  abbrev Stands : StoredMessage → Type 0
  Stands m = (q : StoredMessage → Bool) → q m ≡ true → any q delta ≡ true

  cursor-after :
      (k : ℕ)
      → cursor after k
        ≡ moved (of_chat k (select (is_before (barrier_if enabled delta)) delta)) (cursor db k)
  cursor-after k =
      cursor-moved now head summary (hold_back_if_transcribing delta enabled) db k
      ∙ ap (λ ms. moved (of_chat k ms) (cursor db k)) (hold_back-select delta enabled)

  is_new-after :
      (m : StoredMessage)
      → is_new db m.chat_id m ≡ true
      → Stands m
      → is_new after m.chat_id m ≡ not (is_before (barrier_if enabled delta) m)
  is_new-after m new stands = elim (Bool-cases (is_before (barrier_if enabled delta) m)) [
    | inl e ↦
        let consumed : is_past (cursor after m.chat_id) m.id ≡ false = rw (cursor-after m.chat_id) (
          consumed_behind m.id _ (cursor db m.chat_id) (
            any-select (λ x. eqb x.id m.id) (λ x. eqb x.chat_id m.chat_id) _
            ∙ any-select (λ x. eqb x.chat_id m.chat_id && eqb x.id m.id)
                (is_before (barrier_if enabled delta)) delta
            ∙ stands _ (rw (e, eqb_refl m.chat_id, eqb_refl m.id) refl))) in
        rw (e, consumed, eqb_refl m.chat_id) refl
    | inr e ↦
        let past : is_past (cursor db m.chat_id) m.id ≡ true = rw (eqb_refl m.chat_id) at new in
        let held : is_past (cursor after m.chat_id) m.id ≡ true = rw (cursor-after m.chat_id) (
          held_past (barrier_if enabled delta) m _ (cursor db m.chat_id)
            (All-of_chat _ m.chat_id _ (All-select_before (barrier_if enabled delta) delta)) e
            past) in
        rw (e, held, eqb_refl m.chat_id) refl
  ]

  is_new_all :
      (ms : List StoredMessage)
      → ((q : StoredMessage → Bool) → any q ms ≡ true → any q delta ≡ true)
      → All (λ m. is_new db m.chat_id m ≡ true) ms
      → All (λ m. is_new after m.chat_id m ≡ not (is_before (barrier_if enabled delta) m)) ms
  is_new_all [] part a = tt
  is_new_all (m ∷ ms) part a = (
    is_new-after m a.0 (λ q h. part q (rw h refl)),
    is_new_all ms (λ q h. part q (ground arith)) a.1,
  )

  -- Of a delta whose messages are all past their chats' cursors, after the part before the barrier
  -- was consumed, a message is past its chat's cursor exactly when it was held back.
  pub review_exact :
      All (λ m. is_new db m.chat_id m ≡ true) delta
      → All (λ m. is_new after m.chat_id m ≡ not (is_before (barrier_if enabled delta) m)) delta
  review_exact = is_new_all delta (λ q h. h)

module _ (db : Db) where
  All-since_cursor : (k : ℕ) → All (λ m. is_new db m.chat_id m ≡ true) (messages_since_cursor db k)
  unfolding messages_since_cursor
  All-since_cursor k = All-sort leb_sent _ _ (go db.messages)
    where
      go :
          (ms : List StoredMessage)
          → All (λ m. is_new db m.chat_id m ≡ true) (select (is_new db k) ms)
      go [] = tt
      go (m ∷ ms) = elim (Bool-cases (is_new db k m)) [
        | inl e ↦ rw e (own m e, go ms)
        | inr e ↦ rw e (go ms)
      ]
        where
          own : (x : StoredMessage) → is_new db k x ≡ true → is_new db x.chat_id x ≡ true
          own x h = ground (arith, eqb_iff x.chat_id k)

  All-members :
      (ks : List ℕ)
      → All (λ m. is_new db m.chat_id m ≡ true) (flatten (map (messages_since_cursor db) ks))
  All-members [] = tt
  All-members (k ∷ ks) = All-append _ _ _ (All-since_cursor k) (All-members ks)

  -- Every message of a family's delta is past the cursor of its own chat.
  pub All-family_delta :
      (head : ℕ) → All (λ m. is_new db m.chat_id m ≡ true) (family_delta_since_cursor db head)
  unfolding family_delta_since_cursor
  All-family_delta head = All-sort leb_sent _ _ (All-members (family_member_ids db head))

-- Once a family's delta is analysed without the part from the barrier on, and the members' cursors are
-- advanced, a message of the delta is past the cursor of its own chat exactly when it was held back.
pub family_review_exact :
    (now : String) (head : ℕ) (summary : Option String) (enabled : Bool) (db : Db)
    → All
        (λ m.
          is_new (after now head summary enabled db (family_delta_since_cursor db head)) m.chat_id m
          ≡ not (is_before (barrier_if enabled (family_delta_since_cursor db head)) m))
        (family_delta_since_cursor db head)
family_review_exact now head summary enabled db =
    review_exact now head summary enabled db (family_delta_since_cursor db head)
      (All-family_delta db head)
