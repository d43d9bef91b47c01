-- ===== src/Keywords/Signal.antt =====
-- The prefilter passes a delta exactly when some message matches some rule, and it reports each
-- matching root once.
use whatsapp_radar.Base.{
  ◌+◌, ◌≤◌, String, ◌≡◌, refl, ◌∙◌, ◌↔◌, inl, inr, Bool, true, false, ◌||◌, List, [], ◌∷◌, ◌++◌,
  arith, ◌==◌, eq_iff, any, count_where, count_where-append, Bool-cases,
}
use whatsapp_radar.Store.Rows.{StoredMessage}
use whatsapp_radar.Keywords.{
  KeywordRule, note, matched_rules, note_rules, note_messages, has_actionable_signal,
}

abbrev pub is_among : String → List String → Bool
is_among k = any (λ j. j == k)

-- Some rule of the list has the root.
abbrev pub has_root : String → List KeywordRule → Bool
has_root k = any (λ r. r.root == k)

among-append :
    (k r : String) (seen : List String) → is_among k (seen ++ r ∷ []) ≡ (is_among k seen || r == k)
among-append k r [] = ground arith
among-append k r (s ∷ seen) = ground (arith, among-append k r seen)

among-note :
    (k r : String) (seen : List String) → is_among k (note r seen) ≡ (is_among k seen || r == k)
among-note k r seen = elim (Bool-cases (is_among r seen)) [
  | inl e ↦ elim (Bool-cases (r == k)) [
    | inl f ↦ rw (e, f) (rw (← (eq_iff r k).0 f) (rw e refl))
    | inr f ↦ rw (e, f) (ground arith)
  ]
  | inr e ↦ rw e (among-append k r seen)
]

-- No text is noted twice.
abbrev pub NoRepeats : List String → Type 0
NoRepeats seen = (k : String) → count_where (λ j. j == k) seen ≤ 1

count-absent :
    (k : String) (seen : List String) → is_among k seen ≡ false → count_where (λ j. j == k) seen ≡ 0
count-absent k [] h = refl
count-absent k (s ∷ seen) h = ground (arith, count-absent k seen)

NoRepeats-note : (r : String) (seen : List String) → NoRepeats seen → NoRepeats (note r seen)
NoRepeats-note r seen h k = elim (Bool-cases (is_among r seen)) [
  | inl e ↦ rw e (h k)
  | inr e ↦ rw e (rw (count_where-append (λ j. j == k) seen (r ∷ [])) (fresh e))
]
  where
    fresh :
        is_among r seen ≡ false
        → count_where (λ j. j == k) seen + count_where (λ j. j == k) (r ∷ []) ≤ 1
    fresh e = elim (Bool-cases (r == k)) [
      | inl f ↦ rw f (omega (arith, count-absent k seen (rw ((eq_iff r k).0 f) at e)))
      | inr f ↦ rw f (omega (arith, h k))
    ]

module _ (normalize : String → String) (rules_of : String → List KeywordRule) where
  among-note_rules :
      (k : String) (rs : List KeywordRule) (seen : List String × List String)
      → is_among k (note_rules normalize rules_of rs seen).0 ≡ (is_among k seen.0 || has_root k rs)
  unfolding note_rules
  among-note_rules k [] seen = ground arith
  among-note_rules k (r ∷ rs) seen =
      among-note_rules k rs (note r.root seen.0, note r.bucket seen.1)
      ∙ rw (among-note k r.root seen.0) (ground arith)

  NoRepeats-note_rules :
      (rs : List KeywordRule) (seen : List String × List String)
      → NoRepeats seen.0
      → NoRepeats (note_rules normalize rules_of rs seen).0
  unfolding note_rules
  NoRepeats-note_rules [] seen h = h
  NoRepeats-note_rules (r ∷ rs) seen h =
      NoRepeats-note_rules rs (note r.root seen.0, note r.bucket seen.1)
        (NoRepeats-note r.root seen.0 h)

  among-note_messages :
      (k source : String) (ms : List StoredMessage) (seen : List String × List String)
      → is_among k (note_messages normalize rules_of source ms seen).0 ≡ (
          is_among k seen.0
          || any (λ m. has_root k (matched_rules normalize rules_of m.text source)) ms)
  unfolding note_messages
  among-note_messages k source [] seen = ground arith
  among-note_messages k source (m ∷ ms) seen =
      among-note_messages k source ms _
      ∙ rw (among-note_rules k (matched_rules normalize rules_of m.text source) seen) (ground arith)

  NoRepeats-note_messages :
      (source : String) (ms : List StoredMessage) (seen : List String × List String)
      → NoRepeats seen.0
      → NoRepeats (note_messages normalize rules_of source ms seen).0
  unfolding note_messages
  NoRepeats-note_messages source [] seen h = h
  NoRepeats-note_messages source (m ∷ ms) seen h =
      NoRepeats-note_messages source ms _
        (NoRepeats-note_rules (matched_rules normalize rules_of m.text source) seen h)

  -- A text is a reported root exactly when some message of the delta matches a rule of that root, and
  -- no root is reported twice; the delta passes exactly when some root is reported.
  pub signal_roots :
      (delta : List StoredMessage) (source : String)
      → let signal = has_actionable_signal normalize rules_of delta source in
        ((k : String)
          → is_among k signal.roots
            ≡ any (λ m. has_root k (matched_rules normalize rules_of m.text source)) delta)
        × NoRepeats signal.roots
        × ((signal.matched ≡ true) ↔ ((k : String) × (is_among k signal.roots ≡ true)))
  unfolding has_actionable_signal
  signal_roots delta source = (
    λ k. among-note_messages k source delta ([], []),
    NoRepeats-note_messages source delta ([], []) (λ k. omega arith),
    shown (note_messages normalize rules_of source delta ([], [])).0,
  )
    where
      shown :
          (roots : List String)
          → (elim roots [ [] ↦ false | r ∷ rs ↦ true ] ≡ true)
            ↔ ((k : String) × (is_among k roots ≡ true))
      shown [] = (λ h. cc, λ h. cc (h.1))
      shown (r ∷ rs) = (λ h. (r, ground (arith, eq_iff r r)), λ h. refl)
