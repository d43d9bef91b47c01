-- ===== src/TravelBlocks/Planned.antt =====
-- src/family/travel_blocks.py: the time boxes of the priced drives.
pub mod Boxes
use whatsapp_radar.Base.{
  ℕ, suc, ◌+◌, ◌-◌, ◌*◌, ◌/◌, ◌%◌, String, Bool, true, false, not, Option, none, some, List, [],
  ◌∷◌, ◌==◌, eqb, ltb, leb, if◌then◌else◌,
}
use whatsapp_radar.Base.Sort.{sort}
use whatsapp_radar.Base.TextOrder.{leb_text}
use whatsapp_radar.Family.Events.{Moment, datetime, minute}
use whatsapp_radar.TravelBlocks.Model.{PlannedLeg, Datetime, aware, naive}
use whatsapp_radar.TravelBlocks.Desired.{LegRequest, request_key, leg_outbound, leg_return}
use whatsapp_radar.TravelBlocks.Pricing.{Durations, duration_of}

-- `int(round(seconds / 60.0))`: to the nearest minute, and from the middle to the even one.
unfoldable pub rounded : ℕ → ℕ
rounded n =
    if ltb (n % 60) 30
    then n / 60
    else if ltb 30 (n % 60)
    then suc (n / 60)
    else if eqb ((n / 60) % 2) 0
    then n / 60
    else suc (n / 60)

abbrev pub positive : Option ℕ → Option ℕ
positive none = none
positive (some n) = if eqb (rounded n) 0 then none else some (rounded n)

-- `_minutes`
unfoldable pub minutes_of : Durations → String → Option ℕ
minutes_of d k = positive (duration_of k d)

-- The gap in microseconds, the rest in minutes.
unfoldable pub chains_directly : (gap drive_home drive_out dwell : ℕ) → Bool
chains_directly gap drive_home drive_out dwell = ltb gap ((drive_home + drive_out + dwell) * minute)

-- The minutes of the next outbound drive: zero without one, `none` for one that has no price.
abbrev pub drive_out : Durations → Option String → Option ℕ
drive_out d none = some 0
drive_out d (some k) = minutes_of d k

abbrev pub chains_after : ℕ → ℕ → ℕ → Option ℕ → Bool
chains_after gap drive_home dwell none = false
chains_after gap drive_home dwell (some out) = chains_directly gap drive_home out dwell

unfoldable pub is_chained : LegRequest → Durations → ℕ → ℕ → Bool
is_chained r d drive_home dwell = elim r.next_gap [
  | none ↦ false
  | some gap ↦ chains_after gap drive_home dwell (drive_out d r.next_outbound_key)
]

-- A moment some minutes later or earlier.
abbrev pub later_by : ℕ → Moment → Moment
later_by n m = record m { instant = m.instant + n * minute }

abbrev pub earlier_by : ℕ → Moment → Moment
earlier_by n m = record m { instant = m.instant - n * minute }

abbrev pub boxed : LegRequest → ℕ → Moment → Moment → PlannedLeg
boxed r minutes start finish = record {
  person = r.person;
  calendar_id = r.calendar_id;
  leg = r.leg;
  source_event_id = r.source_event_id;
  origin = r.origin;
  destination = r.destination;
  start = datetime start;
  finish = datetime finish;
  source_start = datetime r.source_start;
  source_end = datetime r.source_end;
  minutes = minutes;
}

unfoldable pub planned_leg : LegRequest → ℕ → PlannedLeg
planned_leg r minutes =
    if r.leg == leg_outbound
    then boxed r minutes (earlier_by minutes r.anchor) r.anchor
    else boxed r minutes r.anchor (later_by minutes r.anchor)

-- The body of the loop, with `none` for its two `continue`s.
abbrev pub plan_priced : LegRequest → Durations → ℕ → Option ℕ → Option PlannedLeg
plan_priced r d dwell none = none
plan_priced r d dwell (some minutes) =
    if r.leg == leg_return
    then (if is_chained r d minutes dwell then none else some (planned_leg r minutes))
    else some (planned_leg r minutes)

abbrev pub with_leg : Option PlannedLeg → List PlannedLeg → List PlannedLeg
with_leg none ls = ls
with_leg (some l) ls = l ∷ ls

unfoldable pub plan_each : List LegRequest → Durations → ℕ → List PlannedLeg
plan_each [] d dwell = []
plan_each (r ∷ rs) d dwell =
    with_leg (plan_priced r d dwell (minutes_of d (request_key r))) (plan_each rs d dwell)

abbrev pub instant_of : Datetime → ℕ
instant_of (aware instant offset) = instant
instant_of (naive local) = local

-- The sort key `(person, start, leg)`.
unfoldable pub leb_planned : PlannedLeg → PlannedLeg → Bool
leb_planned a b =
    if not (a.person == b.person)
    then leb_text a.person b.person
    else if not (eqb (instant_of a.start) (instant_of b.start))
    then leb (instant_of a.start) (instant_of b.start)
    else leb_text a.leg b.leg

unfoldable pub build_planned_legs : List LegRequest → Durations → ℕ → List PlannedLeg
build_planned_legs rs d dwell = sort leb_planned (plan_each rs d dwell)
