-- ===== src/TravelBlocks/Planned/Boxes.antt =====
-- src/family/travel_blocks.py: what a planned block reserves.
use whatsapp_radar.Base.{
  ℕ, ◌+◌, ◌-◌, ◌*◌, ◌<◌, ◌≡◌, refl, ap, subst, inl, inr, Option, none, some, List, [], ◌∷◌, ◌==◌,
  arith, eqb, All, All-map, Bool-cases, if◌then◌else◌,
}
use whatsapp_radar.Base.Sort.{All-sort}
use whatsapp_radar.Family.Events.{datetime, minute}
use whatsapp_radar.TravelBlocks.Model.{PlannedLeg}
use whatsapp_radar.TravelBlocks.Desired.{LegRequest, request_key, leg_outbound, leg_return}
use whatsapp_radar.TravelBlocks.Pricing.{Durations, duration_of}
use whatsapp_radar.TravelBlocks.Planned.{
  rounded, positive, minutes_of, is_chained, planned_leg, plan_priced, with_leg, plan_each,
  leb_planned, build_planned_legs, instant_of,
}

-- The anchor of a drive: the source event's start, for the drive there, or its end, for the way back.
abbrev pub IsAnchored : LegRequest → Type 0
IsAnchored r = r.anchor ≡ (if r.leg == leg_outbound then r.source_start else r.source_end)

-- A block's two ends: a drive there ends when its event starts, and starts its minutes before; a drive
-- back starts when its event ends, and ends its minutes later.
abbrev pub IsBoxed : PlannedLeg → Type 0
IsBoxed l =
    (0 < l.minutes)
    × (if l.leg == leg_outbound
        then (l.finish ≡ l.source_start)
          × (instant_of l.start ≡ instant_of l.finish - l.minutes * minute)
        else (l.start ≡ l.source_end)
          × (instant_of l.finish ≡ instant_of l.start + l.minutes * minute))

positive-lt : (o : Option ℕ) (n : ℕ) → positive o ≡ some n → 0 < n
positive-lt none n e = cc
positive-lt (some m) n e = elim (Bool-cases (eqb (rounded m) 0)) [
  | inl z ↦ absurd (ground (arith, rw z at e))
  | inr z ↦ ground (arith, rw z at e)
]

pub planned_leg-IsBoxed :
    (r : LegRequest) (n : ℕ) → 0 < n → IsAnchored r → IsBoxed (planned_leg r n)
unfolding planned_leg
planned_leg-IsBoxed r n p a = elim (Bool-cases (r.leg == leg_outbound)) [
  | inl o ↦ rw (planned_leg, o) (p, rw o (ap datetime (rw o at a), refl))
  | inr o ↦ rw (planned_leg, o) (p, rw o (ap datetime (rw o at a), refl))
]

plan_priced-some :
    (r : LegRequest) (d : Durations) (dwell n : ℕ) (l : PlannedLeg)
    → plan_priced r d dwell (some n) ≡ some l
    → planned_leg r n ≡ l
plan_priced-some r d dwell n l e = elim (Bool-cases (r.leg == leg_return)) [
  | inl t ↦ elim (Bool-cases (is_chained r d n dwell)) [
    | inl c ↦ let no_leg : none ≡ some l = rw (t, c) at e in cc
    | inr c ↦ let one_leg : some (planned_leg r n) ≡ some l = rw (t, c) at e in cc
  ]
  | inr t ↦ let one_leg : some (planned_leg r n) ≡ some l = rw t at e in cc
]

module _ (d : Durations) (dwell : ℕ) (P : PlannedLeg → Type 0) where
  -- A property of the planned legs that every positive price of a request gives.
  pub All-plan_each :
      (rs : List LegRequest)
      → All (λ r. (n : ℕ) → 0 < n → P (planned_leg r n)) rs
      → All P (plan_each rs d dwell)
  unfolding plan_each
  All-plan_each [] h = tt
  All-plan_each (r ∷ rs) h =
      go (plan_priced r d dwell (minutes_of d (request_key r)))
        (price (minutes_of d (request_key r)) refl) (All-plan_each rs h.1)
    where
      price :
          (o : Option ℕ)
          → minutes_of d (request_key r) ≡ o
          → (l : PlannedLeg) → plan_priced r d dwell o ≡ some l
          → P l
      price none e l f = cc
      price (some n) e l f =
          subst P (plan_priced-some r d dwell n l f)
            (h.0 n (positive-lt (duration_of (request_key r) d) n (unfold minutes_of in e)))

      go :
          (o : Option PlannedLeg)
          → ((l : PlannedLeg) → o ≡ some l → P l)
          → All P (plan_each rs d dwell)
          → All P (with_leg o (plan_each rs d dwell))
      go none f rest = rest
      go (some l) f rest = (f l refl, rest)

  pub All-build_planned_legs :
      (rs : List LegRequest)
      → All (λ r. (n : ℕ) → 0 < n → P (planned_leg r n)) rs
      → All P (build_planned_legs rs d dwell)
  unfolding build_planned_legs
  All-build_planned_legs rs h = All-sort leb_planned P (plan_each rs d dwell) (All-plan_each rs h)

-- Every planned block takes a positive number of minutes, and reserves them right before its event,
-- for a drive there, or right after it, for a drive back; where the drives are anchored at the
-- start and the end of their events.
pub build_planned_legs-IsBoxed :
    (rs : List LegRequest) (d : Durations) (dwell : ℕ)
    → All IsAnchored rs
    → All IsBoxed (build_planned_legs rs d dwell)
build_planned_legs-IsBoxed rs d dwell a = All-build_planned_legs d dwell IsBoxed rs (
    All-map IsAnchored (λ r. (n : ℕ) → 0 < n → IsBoxed (planned_leg r n)) rs
      (λ r h n p. planned_leg-IsBoxed r n p h) a)
