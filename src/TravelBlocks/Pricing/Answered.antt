-- ===== src/TravelBlocks/Pricing/Answered.antt =====
-- src/family/travel_blocks_pricing.py: no drive is dropped in silence.
use whatsapp_radar.Base.{
  ℕ, String, ◌≡◌, refl, inl, inr, Bool, true, ◌||◌, Option, none, some, List, [], ◌∷◌, ◌++◌, ◌==◌,
  arith, eq_refl, any, All, Bool-cases,
}
use whatsapp_radar.Family.Events.{Moment, until}
use whatsapp_radar.TravelBlocks.Desired.{LegRequest, request_key}
use whatsapp_radar.TravelBlocks.Pricing.{
  Durations, LegFailure, failure_key, Routed, unread, seconds, Sweep, call_key, cached,
  settle_outcome, with_outcome, price_one, price_each, new_sweep, price_legs,
}

-- A leg has a duration, or a failure.
abbrev pub is_answered : Durations → List LegFailure → String → Bool
is_answered durations failures k =
    any (λ e. e.0 == k) durations || any (λ f. failure_key f == k) failures

abbrev knows : Sweep → String → Bool
knows s k = is_answered s.durations s.failures k

any-append :
    (p : LegFailure → Bool) (xs ys : List LegFailure) → any p (xs ++ ys) ≡ any p xs || any p ys
any-append p [] ys = refl
any-append p (x ∷ xs) ys = ground (arith, any-append p xs ys)

answered_stays :
    (d : Durations) (fs : List LegFailure) (f : LegFailure) (k : String)
    → is_answered d fs k ≡ true
    → is_answered d (fs ++ f ∷ []) k ≡ true
answered_stays d fs f k h = ground (arith, any-append (λ g. failure_key g == k) fs (f ∷ []), h)

answered_now :
    (d : Durations) (fs : List LegFailure) (f : LegFailure)
    → is_answered d (fs ++ f ∷ []) (failure_key f) ≡ true
answered_now d fs f =
    ground
      (arith, any-append (λ g. failure_key g == failure_key f) fs (f ∷ []), eq_refl (failure_key f))

settle_outcome-knows :
    (r : LegRequest) (o : Routed) (s : Sweep) → knows (settle_outcome r o s) (request_key r) ≡ true
unfolding settle_outcome
settle_outcome-knows r (unread detail) s = answered_now s.durations s.failures _
settle_outcome-knows r (seconds n) s = ground (arith, eq_refl (request_key r))

settle_outcome-keeps :
    (r : LegRequest) (o : Routed) (s : Sweep) (k : String)
    → knows s k ≡ true
    → knows (settle_outcome r o s) k ≡ true
unfolding settle_outcome
settle_outcome-keeps r (unread detail) s k h = answered_stays s.durations s.failures _ k h
settle_outcome-keeps r (seconds n) s k h = ground (arith, h)

module _ (route : ℕ → String → String → Moment → Routed) (now : Moment) where
  price_one-knows :
      (r : LegRequest) (s : Sweep) → knows (price_one route now r s) (request_key r) ≡ true
  unfolding price_one with_outcome
  price_one-knows r s = elim (Bool-cases (until r.anchor now)) [
    | inl u ↦ rw u (answered_now s.durations s.failures _)
    | inr u ↦ rw u (go (cached (call_key r) s))
  ]
    where
      go : (o : Option Routed) → knows (with_outcome route now r o s) (request_key r) ≡ true
      go none = settle_outcome-knows r _ _
      go (some known) = settle_outcome-knows r known s

  price_one-keeps :
      (r : LegRequest) (s : Sweep) (k : String)
      → knows s k ≡ true
      → knows (price_one route now r s) k ≡ true
  unfolding price_one with_outcome
  price_one-keeps r s k h = elim (Bool-cases (until r.anchor now)) [
    | inl u ↦ rw u (answered_stays s.durations s.failures _ k h)
    | inr u ↦ rw u (go (cached (call_key r) s))
  ]
    where
      go : (o : Option Routed) → knows (with_outcome route now r o s) k ≡ true
      go none = settle_outcome-keeps r _ _ k h
      go (some known) = settle_outcome-keeps r known s k h

  price_each-keeps :
      (rs : List LegRequest) (s : Sweep) (k : String)
      → knows s k ≡ true
      → knows (price_each route now rs s) k ≡ true
  unfolding price_each
  price_each-keeps [] s k h = h
  price_each-keeps (r ∷ rs) s k h =
      price_each-keeps rs (price_one route now r s) k (price_one-keeps r s k h)

  price_each-knows :
      (rs : List LegRequest) (s : Sweep)
      → All (λ r. knows (price_each route now rs s) (request_key r) ≡ true) rs
  unfolding price_each
  price_each-knows [] s = tt
  price_each-knows (r ∷ rs) s = (
    price_each-keeps rs (price_one route now r s) (request_key r) (price_one-knows r s),
    price_each-knows rs (price_one route now r s),
  )

  -- Whatever Routes answers, and whichever departures have passed: after the pricing, every drive
  -- that was asked for has a duration or a failure under its key.
  pub price_legs-answered :
      (rs : List LegRequest)
      → All
          (λ r.
            is_answered
              (price_legs route now rs).durations
              (price_legs route now rs).failures
              (request_key r)
            ≡ true)
          rs
  unfolding price_legs
  price_legs-answered rs = price_each-knows rs new_sweep
