-- ===== src/TravelBlocks/Plan/Safe.antt =====
-- src/family/travel_blocks.py: what a sweep that could not establish a fact leaves alone.
use whatsapp_radar.Base.{
  ℕ, String, ◌≡◌, inl, inr, Bool, false, not, Option, none, some, List, [], ◌∷◌, map, select, All,
  All-append, All-map, Bool-cases,
}
use whatsapp_radar.Family.Events.{Moment, Words, Calendars}
use whatsapp_radar.TravelBlocks.Model.{Runtime, PlannedLeg, planned_key}
use whatsapp_radar.TravelBlocks.Blocks.{ExistingBlock, block_key}
use whatsapp_radar.TravelBlocks.Reconcile.{is_in, Diff, settle, diff_leg, diff_desired, reconcile}
use whatsapp_radar.TravelBlocks.Reconcile.Guards.{reconcile_guards}
use whatsapp_radar.TravelBlocks.Pricing.{Routed, failure_key, price_legs}
use whatsapp_radar.TravelBlocks.Planned.{build_planned_legs}
use whatsapp_radar.TravelBlocks.Plan.{
  PlanConfig, TravelBlockPlan, PlanStatus, ExistingBlocks, is_unreadable, travel_block_horizon,
  gate_status, empty_plan, sweep_requests, reconcilable, plan_open, plan_travel_blocks,
  planned_dry_run,
}

-- What a reconcile adds are desired legs.
module _ (rt : Runtime) (P : PlannedLeg → Type 0) (keys : List String) where
  settle-adds :
      (l : PlannedLeg) (candidates : List ExistingBlock) (o : Option ExistingBlock) (d : Diff)
      → P l
      → All P d.adds
      → All P (settle rt l candidates o d).adds
  unfolding settle
  settle-adds l candidates none d p h = All-append P d.adds (l ∷ []) h (p, tt)
  settle-adds l candidates (some match) d p h = h

  diff_leg-adds :
      (l : PlannedLeg) (d : Diff) → P l → All P d.adds → All P (diff_leg rt keys l d).adds
  unfolding diff_leg
  diff_leg-adds l d p h = elim (Bool-cases (is_in (planned_key l) keys)) [
    | inl t ↦ rw t h
    | inr t ↦ rw t (settle-adds l _ _ _ p h)
  ]

  diff_desired-adds :
      (ls : List PlannedLeg) (d : Diff)
      → All P ls
      → All P d.adds
      → All P (diff_desired rt keys ls d).adds
  unfolding diff_desired
  diff_desired-adds [] d ps h = h
  diff_desired-adds (l ∷ ls) d ps h =
      diff_desired-adds ls (diff_leg rt keys l d) ps.1 (diff_leg-adds l d ps.0 h)

  reconcile-adds :
      (ls : List PlannedLeg) (existing : List ExistingBlock) (plan_end : ℕ)
      → All P ls
      → All P (reconcile rt ls existing plan_end keys).adds
  unfolding reconcile
  reconcile-adds ls existing plan_end ps = diff_desired-adds ls _ ps tt

All-readable :
    (x : ExistingBlocks) (ls : List PlannedLeg)
    → All (λ l. is_unreadable x l ≡ false) (select (λ l. not (is_unreadable x l)) ls)
All-readable x [] = tt
All-readable x (l ∷ ls) = elim (Bool-cases (is_unreadable x l)) [
  | inl t ↦ rw t (All-readable x ls)
  | inr t ↦ rw t (t, All-readable x ls)
]

module _ (w : Words) (rt : Runtime) (c : PlanConfig)
    (route : ℕ → String → String → Moment → Routed) where
  -- The keys of the drives that the sweep could not price.
  abbrev pub unpriced : Calendars → (now midnight : Moment) → List String
  unpriced cs now midnight =
      map failure_key
        (price_legs route now
          (sweep_requests w rt c route cs (travel_block_horizon c midnight))).failures

  -- What a plan spares: no block of an unpriced drive is deleted, and nothing is added to a calendar
  -- whose blocks could not be listed.
  abbrev pub IsSparing : List String → ExistingBlocks → TravelBlockPlan → Type 0
  IsSparing keys x p =
      All (λ d. is_in (block_key d.block) keys ≡ false) p.deletes
      × All (λ l. is_unreadable x l ≡ false) p.adds

  -- Whatever Routes and the calendars answer, a plan deletes no block of a drive that it could not
  -- price, because the call failed or the departure has passed, and adds no block to a calendar
  -- whose blocks it could not list.
  pub plan_travel_blocks-IsSparing :
      (cs : Calendars) (now midnight : Moment) (x : ExistingBlocks) (dry_run : Option Bool)
      → IsSparing
          (unpriced cs now midnight)
          x
          (plan_travel_blocks w rt c route cs now midnight x dry_run)
  unfolding plan_travel_blocks plan_open empty_plan
  plan_travel_blocks-IsSparing cs now midnight x dry_run = go (gate_status w c)
    where
      go :
          (o : Option PlanStatus)
          → IsSparing (unpriced cs now midnight) x (elim o as (λ q. TravelBlockPlan) [
            | some gate ↦ empty_plan gate (planned_dry_run w rt c route dry_run)
            | none ↦ plan_open w rt c route cs now midnight x (planned_dry_run w rt c route dry_run)
          ])
      go (some gate) = (tt, tt)
      go none =
          let horizon = travel_block_horizon c midnight in
          let priced = price_legs route now (sweep_requests w rt c route cs horizon) in
          let legs =
            build_planned_legs (sweep_requests w rt c route cs horizon) priced.durations
              c.min_home_dwell_min in
          let ready = reconcilable w rt c route legs x in
          let keys = unpriced cs now midnight in
          (
            All-map _ _ (reconcile rt ready x.blocks horizon.1.instant keys).deletes (λ d g. g.0)
                (reconcile_guards rt ready horizon.1.instant keys x.blocks).0,
            reconcile-adds rt (λ l. is_unreadable x l ≡ false) keys ready x.blocks horizon.1.instant
                (All-readable x legs),
          )
