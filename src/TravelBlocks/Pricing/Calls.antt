-- ===== src/TravelBlocks/Pricing/Calls.antt =====
-- src/family/travel_blocks_pricing.py: what the pricing pays for.
use whatsapp_radar.Base.{
  ℕ, suc, ◌/◌, ◌+◌, String, ◌≡◌, refl, sym, ap, ◌∙◌, eq_iff, eqb_iff, inl, inr, Bool, true, false,
  not, ◌&&◌, ◌||◌, Option, none, some, List, [], ◌∷◌, ◌++◌, ◌==◌, eqb, arith, any, find, Bool-cases,
  if◌then◌else◌,
}
use whatsapp_radar.Family.Events.{Moment, until, minute}
use whatsapp_radar.TravelBlocks.Desired.{LegRequest}
use whatsapp_radar.TravelBlocks.Pricing.{
  Routed, unread, seconds, Sweep, CallKey, call_key, same_call, settle_outcome, with_outcome,
  price_one, price_each, new_sweep, price_legs,
}

-- Two drives of one question to Routes: from and to the same places, in the same minute.
abbrev pub same_drive : LegRequest → LegRequest → Bool
same_drive r q =
    r.origin == q.origin
    && (r.destination == q.destination
        && eqb (r.anchor.instant / minute) (q.anchor.instant / minute))

-- A departure that has not passed.
abbrev pub is_ahead : Moment → LegRequest → Bool
is_ahead now r = not (until r.anchor now)

-- How many questions the drives ahead pose that the drives seen so far do not.
unfoldable pub questions : Moment → List LegRequest → List LegRequest → ℕ
questions now seen [] = 0
questions now seen (r ∷ rs) =
    let skip = questions now seen rs in
    let again = questions now (r ∷ seen) rs in
    if is_ahead now r then (if any (λ q. same_drive q r) seen then again else suc again) else skip

-- The questions that the sweep has answers to are those of the drives seen.
abbrev HasSeen : List LegRequest → Sweep → Type 0
HasSeen seen s =
    (r : LegRequest)
    → any (λ e. same_call e.0 (call_key r)) s.outcomes ≡ any (λ q. same_drive q r) seen

find-any :
    (es : List (CallKey × Routed)) (k : CallKey) (o : Option (CallKey × Routed))
    → find (λ e. same_call e.0 k) es ≡ o
    → any (λ e. same_call e.0 k) es ≡ elim o [ none ↦ false | some e ↦ true ]
find-any [] k none h = refl
find-any [] k (some e) h = cc
find-any (e ∷ es) k o h = elim (Bool-cases (same_call e.0 k)) [
  | inl t ↦ rw t (found o (rw t at h))
  | inr t ↦ rw t (find-any es k o (rw t at h))
]
  where
    found :
        (x : Option (CallKey × Routed))
        → some e ≡ x
        → true ≡ elim x [ none ↦ false | some f ↦ true ]
    found none g = cc
    found (some f) g = refl

any-append :
    (es : List (CallKey × Routed)) (k : CallKey) (e : CallKey × Routed)
    → any (λ f. same_call f.0 k) (es ++ e ∷ []) ≡ same_call e.0 k || any (λ f. same_call f.0 k) es
any-append [] k e = ground arith
any-append (f ∷ es) k e = ground (arith, any-append es k e)

settle_outcome-outcomes :
    (r : LegRequest) (o : Routed) (s : Sweep)
    → ((settle_outcome r o s).outcomes ≡ s.outcomes)
      × ((settle_outcome r o s).routes_calls ≡ s.routes_calls)
unfolding settle_outcome
settle_outcome-outcomes r (unread detail) s = (refl, refl)
settle_outcome-outcomes r (seconds n) s = (refl, refl)

same_drive-right :
    (r x : LegRequest) → same_drive r x ≡ true → (q : LegRequest) → same_drive q r ≡ same_drive q x
same_drive-right r x t q =
    let o : r.origin ≡ x.origin = (eq_iff r.origin x.origin).0 (ground (arith, t)) in
    let d : r.destination ≡ x.destination =
      (eq_iff r.destination x.destination).0 (ground (arith, t)) in
    let m : r.anchor.instant / minute ≡ x.anchor.instant / minute =
      (eqb_iff (r.anchor.instant / minute) (x.anchor.instant / minute)).0 (ground (arith, t)) in
    rw (o, d, m) refl

-- A drive that was seen adds no question.
seen_again :
    (r x : LegRequest) (seen : List LegRequest)
    → any (λ q. same_drive q r) seen ≡ true
    → any (λ q. same_drive q x) seen ≡ same_drive r x || any (λ q. same_drive q x) seen
seen_again r x seen h = elim (Bool-cases (same_drive r x)) [
  | inl t ↦ rw t (go t seen h)
  | inr t ↦ rw t refl
]
  where
    go :
        same_drive r x ≡ true
        → (qs : List LegRequest) → any (λ q. same_drive q r) qs ≡ true
        → any (λ q. same_drive q x) qs ≡ true
    go t [] k = k
    go t (q ∷ qs) k = ground (arith, k, go t qs, same_drive-right r x t q)

module _ (route : ℕ → String → String → Moment → Routed) (now : Moment) where
  -- One drive ahead: the question is known, or it is the call's.
  with_outcome-HasSeen :
      (seen : List LegRequest) (r : LegRequest) (s : Sweep) (o : Option (CallKey × Routed))
      → find (λ e. same_call e.0 (call_key r)) s.outcomes ≡ o
      → HasSeen seen s
      → HasSeen (r ∷ seen) (with_outcome route now r (elim o [ none ↦ none | some e ↦ some e.1 ]) s)
  unfolding with_outcome call_key
  with_outcome-HasSeen seen r s (some known) f h x =
      rw ((settle_outcome-outcomes r known.1 s).0)
        (h x ∙ seen_again r x seen (sym (h r) ∙ find-any s.outcomes (call_key r) (some known) f))
  with_outcome-HasSeen seen r s none f h x =
      let answer = route s.routes_calls r.origin r.destination r.anchor in
      ap (λ es. any (λ e. same_call e.0 (call_key x)) es) (settle_outcome-outcomes r answer _).0
      ∙ any-append s.outcomes (call_key x) (call_key r, answer)
      ∙ ap (λ b. same_drive r x || b) (h x)

  with_outcome-calls :
      (seen : List LegRequest) (r : LegRequest) (s : Sweep) (o : Option (CallKey × Routed))
      → find (λ e. same_call e.0 (call_key r)) s.outcomes ≡ o
      → HasSeen seen s
      → (with_outcome route now r (elim o [ none ↦ none | some e ↦ some e.1 ]) s).routes_calls
        ≡ s.routes_calls + (if any (λ q. same_drive q r) seen then 0 else 1)
  unfolding with_outcome
  with_outcome-calls seen r s (some known) f h =
      rw (sym (h r) ∙ find-any s.outcomes (call_key r) (some known) f)
        (omega (arith, (settle_outcome-outcomes r known.1 s).1))
  with_outcome-calls seen r s none f h =
      rw (sym (h r) ∙ find-any s.outcomes (call_key r) none f)
        (omega (arith, (settle_outcome-outcomes r _ _).1))

  abbrev now_seen : LegRequest → List LegRequest → List LegRequest
  now_seen r seen = if is_ahead now r then r ∷ seen else seen

  abbrev asked_for : LegRequest → List LegRequest → ℕ
  asked_for r seen = if is_ahead now r then (if any (λ q. same_drive q r) seen then 0 else 1) else 0

  price_one-calls :
      (seen : List LegRequest) (r : LegRequest) (s : Sweep)
      → HasSeen seen s
      → HasSeen (now_seen r seen) (price_one route now r s)
        × ((price_one route now r s).routes_calls ≡ s.routes_calls + asked_for r seen)
  unfolding price_one
  price_one-calls seen r s h = elim (Bool-cases (until r.anchor now)) [
    | inl u ↦ rw u (h, omega arith)
    | inr u ↦
        let o = find (λ e. same_call e.0 (call_key r)) s.outcomes in
        rw u (with_outcome-HasSeen seen r s o refl h, with_outcome-calls seen r s o refl h)
  ]

  questions-step :
      (seen rs : List LegRequest) (r : LegRequest)
      → questions now seen (r ∷ rs) ≡ asked_for r seen + questions now (now_seen r seen) rs
  unfolding questions
  questions-step seen rs r = go (is_ahead now r) (any (λ q. same_drive q r) seen)
    where
      go :
          (ahead known : Bool)
          → (if ahead
              then (if known
                  then questions now (r ∷ seen) rs
                  else suc (questions now (r ∷ seen) rs))
              else questions now seen rs)
            ≡ (if ahead then (if known then 0 else 1) else 0)
              + questions now (if ahead then r ∷ seen else seen) rs
      go true true = omega arith
      go true false = omega arith
      go false known = omega arith

  price_each-calls :
      (seen rs : List LegRequest) (s : Sweep)
      → HasSeen seen s
      → (price_each route now rs s).routes_calls ≡ s.routes_calls + questions now seen rs
  unfolding price_each questions
  price_each-calls seen [] s h = omega arith
  price_each-calls seen (r ∷ rs) s h =
      let one = price_one-calls seen r s h in
      omega (
        arith,
        price_each-calls (now_seen r seen) rs (price_one route now r s) one.0,
        one.1,
        questions-step seen rs r,
      )

  -- The pricing calls Routes exactly once for each question that the drives ahead pose: for each origin,
  -- destination and minute of departure, also when the call fails. It does not call it for a departure
  -- that has passed.
  pub price_legs-calls :
      (rs : List LegRequest) → (price_legs route now rs).routes_calls ≡ questions now [] rs
  unfolding price_legs
  price_legs-calls rs = omega (arith, price_each-calls [] rs new_sweep (λ r. refl))
