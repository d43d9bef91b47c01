-- ===== src/TravelBlocks/Plan.antt =====
-- src/family/travel_blocks.py: the gates, the horizon, and the sweep that plans and reconciles.
pub mod Safe
pub mod Listed
use whatsapp_radar.Base.{
  ℕ, ◌+◌, ◌*◌, String, Bool, true, false, not, ◌&&◌, ◌||◌, Option, none, some, List, [], ◌∷◌, ◌++◌,
  map, ◌==◌, eqb, ltb, leb, max, any, find, select, if◌then◌else◌,
}
use whatsapp_radar.Family.Events.{Moment, CalendarEvent, Words, Calendars, before, until}
use whatsapp_radar.TravelBlocks.Model.{Runtime, PlannedLeg}
use whatsapp_radar.TravelBlocks.Blocks.{ExistingBlock, TextMap, get_text}
use whatsapp_radar.TravelBlocks.Reconcile.{PlannedDelete, ProtectedBlock, Reconciliation, reconcile}
use whatsapp_radar.TravelBlocks.Desired.{LegRequest, is_travel_block, desired_legs}
use whatsapp_radar.TravelBlocks.Pricing.{
  LegFailure, PricedLegs, Routed, existing_blocks_unreadable, failure_key, price_legs,
}
use whatsapp_radar.TravelBlocks.Planned.{build_planned_legs}

-- The fields of the configuration that the sweep reads.
pub record PlanConfig : Type 0 where
  pub enabled : Bool
  pub dry_run : Bool
  pub horizon_days : ℕ
  pub min_home_dwell_min : ℕ
  pub assessment_days : ℕ
  pub unknown_scan_days : ℕ
  pub home_address : String
  pub api_key : String
  pub origin_lookback_min : ℕ
  pub train_keywords : List String

pub data PlanStatus : Type 0 where
  ok disabled no_home_address no_routes_api_key : PlanStatus

pub record TravelBlockPlan : Type 0 where
  pub status : PlanStatus
  pub dry_run : Bool
  pub legs : List PlannedLeg
  pub adds : List PlannedLeg
  pub deletes : List PlannedDelete
  pub failures : List LegFailure
  pub routes_calls : ℕ
  pub keeps : List ExistingBlock
  pub protected : List ProtectedBlock
  pub horizon : Option (Moment × Moment)

pub record ExistingBlocks : Type 0 where
  pub blocks : List ExistingBlock
  pub unreadable : TextMap

unfoldable pub gate_status : Words → PlanConfig → Option PlanStatus
gate_status w c =
    if not c.enabled
    then some disabled
    else if c.api_key == ""
    then some no_routes_api_key
    else if w.strip c.home_address == ""
    then some no_home_address
    else none

unfoldable pub empty_plan : PlanStatus → Bool → TravelBlockPlan
empty_plan status dry_run = record {
  status = status;
  dry_run = dry_run;
  legs = [];
  adds = [];
  deletes = [];
  failures = [];
  routes_calls = 0;
  keeps = [];
  protected = [];
  horizon = none;
}

-- `max(family.unknown_scan_days, family.assessment_days)`
unfoldable pub scan_window_days : PlanConfig → ℕ
scan_window_days c =
    if ltb c.unknown_scan_days c.assessment_days then c.assessment_days else c.unknown_scan_days

-- A day, in microseconds: `timedelta(days=1)`.
abbrev pub day : ℕ
day = 86400000000

abbrev pub days_after : ℕ → Moment → Moment
days_after n m = record m { instant = m.instant + n * day }

-- `family.travel_blocks.horizon_days or family.assessment_days`
abbrev pub wanted_days : PlanConfig → ℕ
wanted_days c = if eqb c.horizon_days 0 then c.assessment_days else c.horizon_days

-- `local_midnight(now)` comes as `midnight`, since it is `datetime.replace`.
unfoldable pub travel_block_horizon : PlanConfig → (midnight : Moment) → Moment × Moment
travel_block_horizon c midnight =
    let days =
      if ltb (scan_window_days c) (wanted_days c) then scan_window_days c else wanted_days c in
    (midnight, days_after days midnight)

-- Whether an event may be the source of a block.
abbrev pub is_source : Moment → Moment → CalendarEvent → Bool
is_source horizon_start horizon_end e =
    not (e.all_day || is_travel_block e)
    && (until horizon_start e.start && before e.start horizon_end)

unfoldable pub later_end : Moment → Moment → CalendarEvent → Moment → Moment
later_end horizon_start horizon_end e latest =
    if is_source horizon_start horizon_end e && before latest e.finish then e.finish else latest

unfoldable pub latest_end : Moment → Moment → List CalendarEvent → Moment → Moment
latest_end horizon_start horizon_end [] latest = latest
latest_end horizon_start horizon_end (e ∷ es) latest =
    latest_end horizon_start horizon_end es (later_end horizon_start horizon_end e latest)

unfoldable pub latest_ends : Moment → Moment → Calendars → Moment → Moment
latest_ends horizon_start horizon_end [] latest = latest
latest_ends horizon_start horizon_end ((person, events) ∷ rest) latest =
    latest_ends horizon_start horizon_end rest (latest_end horizon_start horizon_end events latest)

-- With `LISTING_PAD`, one day.
unfoldable pub travel_block_listing_end : Calendars → (horizon_start horizon_end : Moment) → Moment
travel_block_listing_end calendars horizon_start horizon_end =
    days_after 1 (latest_ends horizon_start horizon_end calendars horizon_end)

-- `calendar_id in existing.unreadable`
abbrev pub is_unreadable : ExistingBlocks → PlannedLeg → Bool
is_unreadable x l = any (λ e. e.0 == l.calendar_id) x.unreadable

unfoldable pub unreadable_failures : List PlannedLeg → ExistingBlocks → List LegFailure
unreadable_failures legs x =
    map
      (λ (l : PlannedLeg). record {
        person = l.person;
        calendar_id = l.calendar_id;
        source_event_id = l.source_event_id;
        leg = l.leg;
        reason = existing_blocks_unreadable;
        detail = get_text "" l.calendar_id x.unreadable;
      })
      (select (is_unreadable x) legs)

module _ (w : Words) (rt : Runtime) (c : PlanConfig)
    (route : ℕ → String → String → Moment → Routed) where
  -- The requests of the sweep, at its horizon.
  unfoldable pub sweep_requests : Calendars → Moment × Moment → List LegRequest
  sweep_requests calendars horizon =
      desired_legs w c.home_address c.origin_lookback_min c.train_keywords horizon.0 horizon.1
        calendars

  abbrev pub reconcilable : List PlannedLeg → ExistingBlocks → List PlannedLeg
  reconcilable legs x = select (λ l. not (is_unreadable x l)) legs

  -- What follows the gates.
  unfoldable pub plan_open :
      Calendars → (now midnight : Moment) → ExistingBlocks → Bool → TravelBlockPlan
  plan_open calendars now midnight x dry_run =
      let horizon = travel_block_horizon c midnight in
      let requests = sweep_requests calendars horizon in
      let priced = price_legs route now requests in
      let legs = build_planned_legs requests priced.durations c.min_home_dwell_min in
      let diff =
        reconcile rt (reconcilable legs x) x.blocks horizon.1.instant
          (map failure_key priced.failures) in
      record {
        status = ok;
        dry_run = dry_run;
        legs = legs;
        adds = diff.adds;
        deletes = diff.deletes;
        failures = priced.failures ++ unreadable_failures legs x;
        routes_calls = priced.routes_calls;
        keeps = diff.keeps;
        protected = diff.protected;
        horizon = some horizon;
      }

  -- `settings.dry_run if dry_run is None else dry_run`
  abbrev pub planned_dry_run : Option Bool → Bool
  planned_dry_run dry_run = elim dry_run [ none ↦ c.dry_run | some given ↦ given ]

  unfoldable pub plan_travel_blocks :
      Calendars → (now midnight : Moment) → ExistingBlocks → Option Bool → TravelBlockPlan
  plan_travel_blocks calendars now midnight x dry_run = elim (gate_status w c) [
    | some gate ↦ empty_plan gate (planned_dry_run dry_run)
    | none ↦ plan_open calendars now midnight x (planned_dry_run dry_run)
  ]
