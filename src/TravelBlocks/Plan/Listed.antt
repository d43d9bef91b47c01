-- ===== src/TravelBlocks/Plan/Listed.antt =====
-- src/family/travel_blocks.py: the blocks of a plan, and the reach of the listing that finds them again.
use whatsapp_radar.Base.{
  ℕ, ◌≤◌, ◌<◌, String, ◌≡◌, inl, inr, Bool, true, not, ◌&&◌, ◌||◌, Option, none, some, List, [],
  ◌∷◌, arith, ◌==◌, leb, select, All, All-append, All-map, Bool-cases,
}
use whatsapp_radar.Family.Events.{Moment, CalendarEvent, Words, Calendars, before}
use whatsapp_radar.TravelBlocks.Model.{Runtime, PlannedLeg}
use whatsapp_radar.TravelBlocks.Desired.{
  LegRequest, is_travel_block, leg_outbound, requests_of, desired_legs,
}
use whatsapp_radar.TravelBlocks.Desired.Horizon.{may_place, IsGrounded, person_requests-IsGrounded}
use whatsapp_radar.TravelBlocks.Pricing.{Durations, Routed}
use whatsapp_radar.TravelBlocks.Planned.{planned_leg, build_planned_legs, instant_of}
use whatsapp_radar.TravelBlocks.Planned.Boxes.{IsBoxed, planned_leg-IsBoxed, All-build_planned_legs}
use whatsapp_radar.TravelBlocks.Plan.{
  PlanConfig, TravelBlockPlan, PlanStatus, ExistingBlocks, is_source, later_end, latest_end,
  latest_ends, travel_block_listing_end, travel_block_horizon, gate_status, empty_plan,
  sweep_requests, plan_open, plan_travel_blocks, planned_dry_run,
}

module _ (hs he : Moment) where
  -- A source event ends by `limit`.
  abbrev EndsBy : ℕ → CalendarEvent → Type 0
  EndsBy limit e = (not (is_source hs he e) || leb e.finish.instant limit) ≡ true

  later_end-EndsBy :
      (e : CalendarEvent) (m : Moment)
      → (m.instant ≤ (later_end hs he e m).instant) × EndsBy (later_end hs he e m).instant e
  unfolding later_end
  later_end-EndsBy e m = elim (Bool-cases (is_source hs he e && before m e.finish)) [
    | inl t ↦ rw (later_end, t) (ground arith, ground arith)
    | inr t ↦ rw (later_end, t) (omega arith, ground arith)
  ]

  latest_end-grows :
      (es : List CalendarEvent) (m : Moment) → m.instant ≤ (latest_end hs he es m).instant
  unfolding latest_end
  latest_end-grows [] m = omega arith
  latest_end-grows (e ∷ es) m =
      let one = later_end-EndsBy e m in
      omega (arith, one.0, latest_end-grows es (later_end hs he e m))

  latest_ends-grows : (cs : Calendars) (m : Moment) → m.instant ≤ (latest_ends hs he cs m).instant
  unfolding latest_ends
  latest_ends-grows [] m = omega arith
  latest_ends-grows ((person, es) ∷ cs) m =
      omega (arith, latest_end-grows es m, latest_ends-grows cs (latest_end hs he es m))

  latest_end-EndsBy :
      (es : List CalendarEvent) (m : Moment) (limit : ℕ)
      → (latest_end hs he es m).instant ≤ limit
      → All (EndsBy limit) es
  unfolding latest_end
  latest_end-EndsBy [] m limit h = tt
  latest_end-EndsBy (e ∷ es) m limit h =
      let one = later_end-EndsBy e m in
      let grown = latest_end-grows es (later_end hs he e m) in
      (ground (arith, one.1), latest_end-EndsBy es (later_end hs he e m) limit h)

  module _ (w : Words) (home : String) (lookback : ℕ) (keywords : List String) where
    may_place-EndsBy :
        (limit : ℕ) (es : List CalendarEvent)
        → All (EndsBy limit) es
        → All
            (λ e. may_place w home lookback keywords hs he limit e ≡ true)
            (select (λ e. not (is_travel_block e)) es)
    may_place-EndsBy limit [] h = tt
    may_place-EndsBy limit (e ∷ es) h = elim (Bool-cases (is_travel_block e)) [
      | inl b ↦ rw b (may_place-EndsBy limit es h.1)
      | inr b ↦ rw b (ground (arith, h.0), may_place-EndsBy limit es h.1)
    ]

    requests_of-IsGrounded :
        (limit : ℕ) (cs : Calendars) (m : Moment)
        → he.instant ≤ m.instant
        → (latest_ends hs he cs m).instant ≤ limit
        → All
            (IsGrounded w home lookback keywords hs he limit)
            (requests_of w home lookback keywords hs he cs)
    unfolding requests_of latest_ends
    requests_of-IsGrounded limit [] m l h = tt
    requests_of-IsGrounded limit ((person, es) ∷ cs) m l h =
        let grown = latest_end-grows es m in
        let more = latest_ends-grows cs (latest_end hs he es m) in
        All-append (IsGrounded w home lookback keywords hs he limit) _ _
          (person_requests-IsGrounded w home lookback keywords hs he limit person _
            (omega (arith, grown, more))
            (may_place-EndsBy limit es (latest_end-EndsBy es m limit (omega (arith, more)))))
          (requests_of-IsGrounded limit cs (latest_end hs he es m) (omega (arith, grown)) h)

    desired_legs-IsGrounded :
        (cs : Calendars)
        → All
            (IsGrounded w home lookback keywords hs he (latest_ends hs he cs he).instant)
            (desired_legs w home lookback keywords hs he cs)
    unfolding desired_legs
    desired_legs-IsGrounded cs = elim (Bool-cases (w.strip home == "")) [
      | inl t ↦ rw t tt
      | inr t ↦ rw t (
          requests_of-IsGrounded (latest_ends hs he cs he).instant cs he (omega arith)
            (omega arith))
    ]

start-planned_leg : (r : LegRequest) (n : ℕ) → instant_of (planned_leg r n).start ≤ r.anchor.instant
unfolding planned_leg
start-planned_leg r n = elim (Bool-cases (r.leg == leg_outbound)) [
  | inl o ↦ rw (planned_leg, o) (omega arith)
  | inr o ↦ rw (planned_leg, o) (omega arith)
]

-- A block has its box, and starts before the moment.
abbrev pub IsListed : Moment → PlannedLeg → Type 0
IsListed end_ l = IsBoxed l × (instant_of l.start < end_.instant)

module _ (w : Words) (rt : Runtime) (c : PlanConfig)
    (route : ℕ → String → String → Moment → Routed) where
  planned_legs-IsListed :
      (cs : Calendars) (hs he : Moment) (d : Durations)
      → All (IsListed (travel_block_listing_end cs hs he)) (
          build_planned_legs
            (desired_legs w c.home_address c.origin_lookback_min c.train_keywords hs he cs)
            d
            c.min_home_dwell_min)
  unfolding travel_block_listing_end
  planned_legs-IsListed cs hs he d =
      All-build_planned_legs d c.min_home_dwell_min (IsListed (travel_block_listing_end cs hs he)) _
        (All-map _ _ (desired_legs w c.home_address c.origin_lookback_min c.train_keywords hs he cs)
          (λ r g n p. (planned_leg-IsBoxed r n p g.0, omega (arith, g.1, start-planned_leg r n)))
          (desired_legs-IsGrounded hs he w c.home_address c.origin_lookback_min c.train_keywords
            cs))

  -- Whatever Routes answers, every block of a plan takes a positive number of minutes right before or
  -- right after its source event, and starts before the end of the listing, so that the next sweep
  -- finds it, also when its event runs past the horizon.
  pub plan_travel_blocks-IsListed :
      (cs : Calendars) (now midnight : Moment) (x : ExistingBlocks) (dry_run : Option Bool)
      → All
          (IsListed (
            travel_block_listing_end cs
              (travel_block_horizon c midnight).0
              (travel_block_horizon c midnight).1))
          (plan_travel_blocks w rt c route cs now midnight x dry_run).legs
  unfolding plan_travel_blocks plan_open empty_plan sweep_requests
  plan_travel_blocks-IsListed cs now midnight x dry_run = go (gate_status w c)
    where
      go :
          (o : Option PlanStatus)
          → All
              (IsListed (
                travel_block_listing_end cs
                  (travel_block_horizon c midnight).0
                  (travel_block_horizon c midnight).1))
              (elim o as (λ q. TravelBlockPlan) [
                | some gate ↦ empty_plan gate (planned_dry_run w rt c route dry_run)
                | none ↦
                    plan_open w rt c route cs now midnight x (planned_dry_run w rt c route dry_run)
              ]).legs
      go (some gate) = tt
      go none =
          planned_legs-IsListed cs (travel_block_horizon c midnight).0
            (travel_block_horizon c midnight).1 _
