-- ===== src/TravelBlocks/Desired.antt =====
-- src/family/travel_blocks.py: the drives that should have a block. The calendars' moments have fixed
-- offsets, so that a time of the clock is moved as its instant is.
pub mod Horizon
pub mod Unfed
use whatsapp_radar.Base.{
  ℕ, String, ◌-◌, Bool, true, false, not, ◌&&◌, Option, none, some, List, [], ◌∷◌, ◌++◌, ◌==◌, leb,
  ltb, select, find, is_none, if◌then◌else◌,
}
use whatsapp_radar.Base.Sort.{sort}
use whatsapp_radar.Family.Events.{Moment, CalendarEvent, Words, Calendars, before, until}
use whatsapp_radar.Family.Addresses.{same_address}
use whatsapp_radar.Family.Location.{physical_location, requires_commute, is_train_commute}
use whatsapp_radar.Family.Commutes.{resolve_origin}
use whatsapp_radar.TravelBlocks.Model.{marker_key, marker_value, leg_key}
use whatsapp_radar.TravelBlocks.Blocks.{get_text}

abbrev pub leg_outbound : String
leg_outbound = "outbound"

abbrev pub leg_return : String
leg_return = "return"

pub record LegRequest : Type 0 where
  pub person : String
  pub calendar_id : String
  pub leg : String
  pub source_event_id : String
  pub origin : String
  pub destination : String
  pub anchor : Moment
  pub source_start : Moment
  pub source_end : Moment
  -- `next_gap_min`, in microseconds.
  pub next_gap : Option ℕ
  pub next_outbound_key : Option String

-- `LegRequest.key`
abbrev pub request_key : LegRequest → String
request_key r = leg_key r.calendar_id r.source_event_id r.leg

-- A missing key is no marker, so the default is any text but the marker's value.
unfoldable pub is_travel_block : CalendarEvent → Bool
is_travel_block e = get_text "" marker_key e.extended_private == marker_value

-- An event, and where it is driven to.
abbrev pub Placed : Type 0
Placed = CalendarEvent × String

abbrev pub placed_by_start : Placed → Placed → Bool
placed_by_start a b = until a.0.start b.0.start

-- `next((later for later, _ in placed[index + 1:] if later.start >= event.end), None)`
abbrev pub next_event : CalendarEvent → List Placed → Option Placed
next_event e later = find (λ p. until e.finish p.0.start) later

-- `{request.source_event_id: request for request in outbound}.get(event_id)`: the last one of the id.
unfoldable pub outbound_of : String → List LegRequest → Option LegRequest
outbound_of event_id [] = none
outbound_of event_id (r ∷ rs) = elim (outbound_of event_id rs) [
  | some later ↦ some later
  | none ↦ if r.source_event_id == event_id then some r else none
]

-- `None if next_outbound is None else next_outbound.key`
abbrev pub key_of : Option LegRequest → Option String
key_of none = none
key_of (some r) = some (request_key r)

module _ (w : Words) (home : String) (lookback : ℕ) (keywords : List String) where
  unfoldable pub drive_destination : CalendarEvent → Option String
  drive_destination e =
      if e.all_day
      then none
      else if is_train_commute w e keywords
      then none
      else if not (requires_commute w e home)
      then none
      else physical_location w e

  abbrev pub outbound_request : String → List CalendarEvent → Placed → LegRequest
  outbound_request person events (e, destination) = record {
    person = person;
    calendar_id = e.calendar_id;
    leg = leg_outbound;
    source_event_id = e.event_id;
    origin = resolve_origin w home lookback e events;
    destination = destination;
    anchor = e.start;
    source_start = e.start;
    source_end = e.finish;
    next_gap = none;
    next_outbound_key = none;
  }

  unfoldable pub outbound_requests : String → List CalendarEvent → List Placed → List LegRequest
  outbound_requests person events [] = []
  outbound_requests person events (p ∷ placed) =
      let rest = outbound_requests person events placed in
      if same_address w (resolve_origin w home lookback p.0 events) p.1
      then rest
      else outbound_request person events p ∷ rest

  -- The gap is not negative, as the next event starts no earlier than this one ends.
  abbrev pub return_request : String → List LegRequest → Placed → Option Placed → LegRequest
  return_request person outbound (e, destination) next = record {
    person = person;
    calendar_id = e.calendar_id;
    leg = leg_return;
    source_event_id = e.event_id;
    origin = destination;
    destination = home;
    anchor = e.finish;
    source_start = e.start;
    source_end = e.finish;
    next_gap = elim next [ none ↦ none | some n ↦ some (n.0.start.instant - e.finish.instant) ];
    next_outbound_key = elim next [
      | none ↦ none
      | some n ↦ key_of (outbound_of n.0.event_id outbound)
    ];
  }

  unfoldable pub return_requests : String → List LegRequest → List Placed → List LegRequest
  return_requests person outbound [] = []
  return_requests person outbound (p ∷ later) =
      return_request person outbound p (next_event p.0 later)
      ∷ return_requests person outbound later

  module _ (horizon_start horizon_end : Moment) where
    abbrev pub in_horizon : CalendarEvent → Bool
    in_horizon e = until horizon_start e.start && before e.start horizon_end

    abbrev pub with_place : CalendarEvent → Option String → List Placed → List Placed
    with_place e none placed = placed
    with_place e (some destination) placed = (e, destination) ∷ placed

    -- The loop that fills `placed`.
    unfoldable pub placed_events : List CalendarEvent → List Placed
    placed_events [] = []
    placed_events (e ∷ es) =
        let rest = placed_events es in
        if in_horizon e then with_place e (drive_destination e) rest else rest

    -- The body of the loop over the persons, on the events that are no blocks.
    unfoldable pub person_requests : String → List CalendarEvent → List LegRequest
    person_requests person events =
        let placed = sort placed_by_start (placed_events events) in
        let outbound = outbound_requests person events placed in
        outbound ++ return_requests person outbound placed

    unfoldable pub requests_of : Calendars → List LegRequest
    requests_of [] = []
    requests_of ((person, events) ∷ rest) =
        person_requests person (select (λ e. not (is_travel_block e)) events) ++ requests_of rest

    unfoldable pub desired_legs : Calendars → List LegRequest
    desired_legs calendars = if w.strip home == "" then [] else requests_of calendars
