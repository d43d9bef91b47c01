-- ===== src/Store/Retention/Laws.antt =====
-- Retention leaves exempt chats alone, and a second pass over the same cutoff removes nothing.
use whatsapp_radar.Base.{
  ℕ, ◌+◌, String, ◌≡◌, refl, ap, ap₂, subst, ◌∙◌, inl, inr, Bool, true, false, not, ◌&&◌, Option,
  none, some, List, [], ◌∷◌, map, arith, ◌==◌, eq_iff, eqb, eqb_iff, any, select, count_where, All,
  All-map, Bool-cases,
}
use whatsapp_radar.Base.TextOrder.{leb_text}
use whatsapp_radar.Store.Rows.{Chat, StoredMessage, ReviewState, Db}
use whatsapp_radar.Store.Retention.{
  PruneOutcome, is_prunable, is_stale, points_to_stale, is_empty_sender, free_orphan,
  is_state_of_any, prune_rows, prune_gmail_unmonitored,
}

-- A test that fails on every row selects none of them.
module _ {A : Type 0} (p : A → Bool) where
  select_failing : (xs : List A) → All (λ x. p x ≡ false) xs → select p xs ≡ []
  select_failing [] h = refl
  select_failing (x ∷ xs) h = rw h.0 (select_failing xs h.1)

  reject_failing : (xs : List A) → All (λ x. p x ≡ false) xs → select (λ x. not (p x)) xs ≡ xs
  reject_failing [] h = refl
  reject_failing (x ∷ xs) h = rw h.0 (ap (λ ys. x ∷ ys) (reject_failing xs h.1))

  count_failing : (xs : List A) → All (λ x. p x ≡ false) xs → count_where p xs ≡ 0
  count_failing [] h = refl
  count_failing (x ∷ xs) h = rw h.0 (omega (arith, count_failing xs h.1))

  any_failing : (xs : List A) → All (λ x. p x ≡ false) xs → any p xs ≡ false
  any_failing [] h = refl
  any_failing (x ∷ xs) h = rw h.0 (any_failing xs h.1)

  rejected_fail : (xs : List A) → All (λ x. p x ≡ false) (select (λ x. not (p x)) xs)
  rejected_fail [] = tt
  rejected_fail (x ∷ xs) = elim (Bool-cases (p x)) [
    | inl e ↦ rw e (rejected_fail xs)
    | inr e ↦ rw e (e, rejected_fail xs)
  ]

  count-add-reject :
      (xs : List A)
      → count_where p xs + count_where (λ _. true) (select (λ x. not (p x)) xs)
        ≡ count_where (λ _. true) xs
  count-add-reject [] = refl
  count-add-reject (x ∷ xs) = elim (Bool-cases (p x)) [
    | inl e ↦ rw e (omega (arith, count-add-reject xs))
    | inr e ↦ rw e (omega (arith, count-add-reject xs))
  ]

freed :
    (removed : List Chat) (c : Chat)
    → ((free_orphan removed c).source ≡ c.source)
      × ((free_orphan removed c).status ≡ c.status)
      × ((free_orphan removed c).id ≡ c.id)
freed removed c = ground arith

empty-freed :
    (messages : List StoredMessage) (removed : List Chat) (c : Chat)
    → is_empty_sender messages (free_orphan removed c) ≡ is_empty_sender messages c
empty-freed messages removed c =
    let (source, status, id) = freed removed c in rw (source, status, id) refl

prunable-freed :
    (removed : List Chat) (c : Chat) → is_prunable (free_orphan removed c) ≡ is_prunable c
prunable-freed removed c = let (source, status, id) = freed removed c in rw (source, status) refl

prunable_id-freed :
    (i : ℕ) (removed : List Chat) (c : Chat)
    → (is_prunable (free_orphan removed c) && eqb (free_orphan removed c).id i)
      ≡ (is_prunable c && eqb c.id i)
prunable_id-freed i removed c =
    let (source, status, id) = freed removed c in rw (source, status, id) refl

-- What `free_orphan` leaves: a test that does not read the parent link.
module _ (p : Chat → Bool) (removed : List Chat)
    (blind : (c : Chat) → p (free_orphan removed c) ≡ p c) where
  All-freed :
      (cs : List Chat)
      → All (λ c. p c ≡ false) cs
      → All (λ c. p c ≡ false) (map (free_orphan removed) cs)
  All-freed [] h = tt
  All-freed (c ∷ cs) h = (blind c ∙ h.0, All-freed cs h.1)

  any-freed :
      (q : Chat → Bool) (cs : List Chat)
      → any p cs ≡ false
      → any p (map (free_orphan removed) (select q cs)) ≡ false
  any-freed q [] h = refl
  any-freed q (c ∷ cs) h = elim (Bool-cases (p c)) [
    | inl e ↦ let no : true ≡ false = rw e at h in cc
    | inr e ↦ elim (Bool-cases (q c)) [
      | inl f ↦ rw (f, blind c, e) (any-freed q cs (rw e at h))
      | inr f ↦ rw f (any-freed q cs (rw e at h))
    ]
  ]

  select-freed :
      (q : Chat → Bool) (cs : List Chat)
      → ((c : Chat) → p c ≡ true → q c ≡ true)
      → select p (map (free_orphan removed) (select q cs)) ≡ map (free_orphan removed) (select p cs)
  select-freed q [] h = refl
  select-freed q (c ∷ cs) h = elim (Bool-cases (p c)) [
    | inl e ↦
        rw (e, h c e, blind c, e) (ap (λ xs. free_orphan removed c ∷ xs) (select-freed q cs h))
    | inr e ↦ elim (Bool-cases (q c)) [
      | inl f ↦ rw (e, f, blind c, e) (select-freed q cs h)
      | inr f ↦ rw (e, f) (select-freed q cs h)
    ]
  ]

free_none : (cs : List Chat) → map (free_orphan []) cs ≡ cs
free_none [] = refl
free_none (c ∷ cs) = ap₂ (λ x xs. x ∷ xs) (same c c.parent_chat_id refl) (free_none cs)
  where
    same : (c : Chat) (o : Option ℕ) → c.parent_chat_id ≡ o → free_orphan [] c ≡ c
    same c o e = ground arith

module _ (cutoff : String) (db : Db) where
  abbrev pub kept_messages : List StoredMessage
  kept_messages = select (λ m. not (is_stale db.chats cutoff m)) db.messages

  abbrev pub removed : List Chat
  removed = select (is_empty_sender kept_messages) db.chats

  abbrev pruned : Db
  pruned = record db {
    chats =
        map (free_orphan removed) (select (λ c. not (is_empty_sender kept_messages c)) db.chats);
    messages = kept_messages;
    states =
        select (λ s. not (is_state_of_any removed s))
          (select (λ s. not (points_to_stale db cutoff s)) db.states);
  }

  not_stale_again :
      (ms : List StoredMessage)
      → All (λ m. is_stale db.chats cutoff m ≡ false) ms
      → All (λ m. is_stale pruned.chats cutoff m ≡ false) ms
  not_stale_again [] h = tt
  not_stale_again (m ∷ ms) h =
      (stale (leb_text cutoff m.message_timestamp) h.0, not_stale_again ms h.1)
    where
      stale :
          (early : Bool)
          → (not early && any (λ c. is_prunable c && eqb c.id m.chat_id) db.chats) ≡ false
          → (not early && any (λ c. is_prunable c && eqb c.id m.chat_id) pruned.chats) ≡ false
      stale true e = refl
      stale false e =
          any-freed (λ c. is_prunable c && eqb c.id m.chat_id) removed
            (prunable_id-freed m.chat_id removed) (λ c. not (is_empty_sender kept_messages c))
            db.chats e

  not_empty_again : All (λ c. is_empty_sender kept_messages c ≡ false) pruned.chats
  not_empty_again =
      All-freed (is_empty_sender kept_messages) removed (empty-freed kept_messages removed) _
        (rejected_fail (is_empty_sender kept_messages) db.chats)

  nothing_stale : All (λ m. is_stale pruned.chats cutoff m ≡ false) kept_messages
  nothing_stale =
      not_stale_again kept_messages (rejected_fail (is_stale db.chats cutoff) db.messages)

  points_nowhere : (s : ReviewState) → points_to_stale pruned cutoff s ≡ false
  points_nowhere s =
      any_failing (λ m. is_stale pruned.chats cutoff m && eqb m.id s.last_processed_message_id)
        kept_messages (All-map _ _ kept_messages (λ m h. rw h refl) nothing_stale)

  All_rows : {A : Type 0} (P : A → Type 0) (xs : List A) → ((x : A) → P x) → All P xs
  All_rows P [] f = tt
  All_rows P (x ∷ xs) f = (f x, All_rows P xs f)

  pruned_again :
      prune_rows cutoff pruned ≡ (pruned, record { messages_pruned = 0; senders_removed = 0 })
  pruned_again =
      rw
        (
          reject_failing (is_stale pruned.chats cutoff) kept_messages nothing_stale,
          select_failing (is_empty_sender kept_messages) pruned.chats not_empty_again,
          reject_failing (is_empty_sender kept_messages) pruned.chats not_empty_again,
          free_none pruned.chats,
          count_failing (is_stale pruned.chats cutoff) kept_messages nothing_stale,
          count_failing (is_empty_sender kept_messages) pruned.chats not_empty_again,
          reject_failing (points_to_stale pruned cutoff) pruned.states
              (All_rows _ _ points_nowhere),
          reject_failing (is_state_of_any []) pruned.states (All_rows _ _ (λ s. refl)),
        )
        refl

module _ (days : ℕ) (cutoff : String) (db db' : Db) (out : PruneOutcome)
    (ran : prune_gmail_unmonitored days cutoff db ≡ some (db', out)) where
  ran_rows : (eqb days 0 ≡ false) × (prune_rows cutoff db ≡ (db', out))
  unfolding prune_gmail_unmonitored
  ran_rows = elim (Bool-cases (eqb days 0)) [
    | inl e ↦
        let no : ◌≡◌ {A = Option (Db × PruneOutcome)} none (some (db', out)) = rw e at ran in cc
    | inr e ↦ let same : some (prune_rows cutoff db) ≡ some (db', out) = rw e at ran in (e, cc)
  ]

  pruned_eq : pruned cutoff db ≡ db'
  pruned_eq = ap (λ (r : Db × PruneOutcome). r.0) ran_rows.1

  -- Retention is idempotent: a second pass with the same cutoff finds nothing to remove, and leaves
  -- the store as it is.
  pub prune_idem :
      prune_gmail_unmonitored days cutoff db'
      ≡ some (db', record { messages_pruned = 0; senders_removed = 0 })
  unfolding prune_gmail_unmonitored
  prune_idem =
      rw (ran_rows.0, ← pruned_eq)
        (ap {B = Option (Db × PruneOutcome)} some (pruned_again cutoff db))

  select_exempt :
      (i : ℕ) (ms : List StoredMessage)
      → any (λ c. is_prunable c && eqb c.id i) db.chats ≡ false
      → select (λ m. eqb m.chat_id i) (select (λ m. not (is_stale db.chats cutoff m)) ms)
        ≡ select (λ m. eqb m.chat_id i) ms
  select_exempt i [] exempt = refl
  select_exempt i (m ∷ ms) exempt = elim (Bool-cases (eqb m.chat_id i)) [
    | inl e ↦
        rw (fresh ((eqb_iff m.chat_id i).0 e) (leb_text cutoff m.message_timestamp), e)
          (ap (λ xs. m ∷ xs) (select_exempt i ms exempt))
    | inr e ↦ elim (Bool-cases (is_stale db.chats cutoff m)) [
      | inl f ↦ rw (f, e) (select_exempt i ms exempt)
      | inr f ↦ rw (f, e) (select_exempt i ms exempt)
    ]
  ]
    where
      fresh :
          m.chat_id ≡ i
          → (early : Bool)
          → (not early && any (λ c. is_prunable c && eqb c.id m.chat_id) db.chats) ≡ false
      fresh e true = refl
      fresh e false = rw e exempt

  unprunable :
      (c : Chat)
      → not (is_prunable c) ≡ true
      → not (is_empty_sender (kept_messages cutoff db) c) ≡ true
  unprunable c h = elim (Bool-cases (c.source == "gmail")) [
    | inr g ↦ rw g refl
    | inl g ↦ elim (Bool-cases (c.status == "monitored")) [
      | inl m ↦ rw ((eq_iff c.status "monitored").0 m, g) refl
      | inr m ↦ let no : false ≡ true = rw (g, m) at h in cc
    ]
  ]

  -- A pass keeps every message of a chat id that no prunable chat has, where a prunable chat is a
  -- Gmail sender that is not monitored; it keeps the rows of the chats that are not prunable, in
  -- order, but for the link to a parent that was removed; and the messages that are left and those
  -- reported as pruned are all there were.
  pub prune_exempt :
      (i : ℕ)
      → any (λ c. is_prunable c && eqb c.id i) db.chats ≡ false
      → (select (λ m. eqb m.chat_id i) db'.messages ≡ select (λ m. eqb m.chat_id i) db.messages)
        × (select (λ c. not (is_prunable c)) db'.chats
            ≡ map (free_orphan (removed cutoff db)) (select (λ c. not (is_prunable c)) db.chats))
        × (out.messages_pruned + count_where (λ _. true) db'.messages
            ≡ count_where (λ _. true) db.messages)
  prune_exempt i exempt = (
    rw (← pruned_eq) (select_exempt i db.messages exempt),
    rw (← pruned_eq) (
        select-freed (λ c. not (is_prunable c)) (removed cutoff db)
          (λ c. rw (prunable-freed (removed cutoff db) c) refl)
          (λ c. not (is_empty_sender (kept_messages cutoff db) c)) db.chats unprunable),
    subst
        (λ r.
          r.1.messages_pruned + count_where (λ _. true) r.0.messages
          ≡ count_where (λ _. true) db.messages)
        ran_rows.1 (count-add-reject (is_stale db.chats cutoff) db.messages),
  )
