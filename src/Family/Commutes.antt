-- ===== src/Family/Commutes.antt =====
-- src/family/rules.py: the drives that the traffic check looks at, and where each starts.
use whatsapp_radar.Base.{
  ℕ, String, ◌+◌, ◌*◌, ◌≡◌, refl, ap, ap₂, ◌∙◌, inl, inr, Bool, true, false, not, ◌&&◌, ◌||◌,
  Option, none, some, List, [], ◌∷◌, ◌++◌, arith, ◌==◌, select, map, leb, if◌then◌else◌,
  Option-cases,
}
use whatsapp_radar.Family.Events.{CalendarEvent, Moment, Words, Calendars, before, minute}
use whatsapp_radar.Family.Addresses.{same_address}
use whatsapp_radar.Family.Location.{
  physical_location, physical_location-nonempty, requires_commute-none, requires_commute,
}

pub record CommuteLeg : Type 0 where
  pub person : String
  pub event : CalendarEvent
  pub origin : String
  pub destination : String
  pub origin_event_end : Option Moment

-- `max(candidates, key=lambda e: e.end)`: the first of those that end last.
unfoldable pub latest : CalendarEvent → List CalendarEvent → CalendarEvent
latest best [] = best
latest best (e ∷ es) = latest (if before best.finish e.finish then e else best) es

-- `… or home_address`
abbrev pub or_home : String → Option String → String
or_home home none = home
or_home home (some loc) = if loc == "" then home else loc

unfoldable pub location_or : Words → String → CalendarEvent → String
location_or w home e = or_home home (physical_location w e)

location_or-some :
    (w : Words) (home : String) (e : CalendarEvent) (dest : String)
    → physical_location w e ≡ some dest
    → location_or w home e ≡ dest
unfolding location_or
location_or-some w home e dest p =
    ap (or_home home) p ∙ rw (physical_location-nonempty w e dest p) refl

-- `legs.append(…)`, when the loop gets there.
abbrev pub kept : Option CommuteLeg → List CommuteLeg → List CommuteLeg
kept none legs = legs
kept (some leg) legs = leg ∷ legs

-- `source.end if source is not None else None`
abbrev pub end_of : Option CalendarEvent → Option Moment
end_of none = none
end_of (some source) = some source.finish

module _ (w : Words) (home : String) (lookback : ℕ) where
  -- `other` may come before `event`: a limit of the look-back at `event.start - lookback` minutes.
  unfoldable pub may_precede : CalendarEvent → CalendarEvent → Bool
  may_precede event other =
      not (other.event_id == event.event_id)
      && (before other.start event.start
          && (leb event.start.instant (other.finish.instant + lookback * minute)
              && requires_commute w other home))

  unfoldable pub origin_source_event : CalendarEvent → List CalendarEvent → Option CalendarEvent
  origin_source_event event events = elim (select (may_precede event) events) [
    | [] ↦ none
    | other ∷ others ↦ some (latest other others)
  ]

  -- `home_address if source is None else (physical_location(source) or home_address)`
  abbrev pub origin_from : Option CalendarEvent → String
  origin_from none = home
  origin_from (some source) = location_or w home source

  unfoldable pub resolve_origin : CalendarEvent → List CalendarEvent → String
  resolve_origin event events = origin_from (origin_source_event event events)

  -- The body of the inner loop, with `none` for its four `continue`s.
  unfoldable pub leg_of :
      (now lookahead : ℕ) → String → List CalendarEvent → CalendarEvent → Option CommuteLeg
  leg_of now lookahead person events event =
      if event.all_day
        || not (leb now event.start.instant && leb event.start.instant (now + lookahead))
      then none
      else if not (requires_commute w event home)
      then none
      else elim (physical_location w event) [
        | none ↦ none
        | some dest ↦
            let source = origin_source_event event events in
            let origin = origin_from source in
            if same_address w origin dest
            then none
            else some (record {
              person = person;
              event = event;
              origin = origin;
              destination = dest;
              origin_event_end = end_of source;
            })
      ]

  unfoldable pub person_legs :
      (now lookahead : ℕ) → String → List CalendarEvent → List CalendarEvent → List CommuteLeg
  person_legs now lookahead person events [] = []
  person_legs now lookahead person events (e ∷ es) =
      kept (leg_of now lookahead person events e) (person_legs now lookahead person events es)

  unfoldable pub upcoming_commutes : (now lookahead : ℕ) → Calendars → List CommuteLeg
  upcoming_commutes now lookahead [] = []
  upcoming_commutes now lookahead ((person, events) ∷ rest) =
      person_legs now lookahead person events events ++ upcoming_commutes now lookahead rest

  -- What is expected: of a person's events, those that are due, in order, each with the origin that
  -- `resolve_origin` gives.
  abbrev pub is_due : (now lookahead : ℕ) → List CalendarEvent → CalendarEvent → Bool
  is_due now lookahead events e =
      not e.all_day
      && (leb now e.start.instant
          && (leb e.start.instant (now + lookahead)
              && (requires_commute w e home
                  && not (same_address w (resolve_origin e events) (location_or w home e)))))

  abbrev pub due_leg : String → List CalendarEvent → CalendarEvent → CommuteLeg
  due_leg person events e = record {
    person = person;
    event = e;
    origin = resolve_origin e events;
    destination = location_or w home e;
    origin_event_end = end_of (origin_source_event e events);
  }

  abbrev pub due_legs : (now lookahead : ℕ) → Calendars → List CommuteLeg
  due_legs now lookahead [] = []
  due_legs now lookahead ((person, events) ∷ rest) =
      map (due_leg person events) (select (is_due now lookahead events) events)
      ++ due_legs now lookahead rest

  -- The loop body gives a leg exactly for an event that is due: a leg it skips at no destination would
  -- have been skipped before, as no drive.
  leg_of-due :
      (now lookahead : ℕ) (person : String) (events : List CalendarEvent) (e : CalendarEvent)
      → leg_of now lookahead person events e
        ≡ (if is_due now lookahead events e then some (due_leg person events e) else none)
  unfolding leg_of resolve_origin
  leg_of-due now lookahead person events e = elim (Option-cases (physical_location w e)) [
    | inl p ↦ rw (p, requires_commute-none w e home p) (ground arith)
    | inr (dest, p) ↦ rw (location_or-some w home e dest p, p) (ground arith)
  ]

  person_legs-due :
      (now lookahead : ℕ) (person : String) (events es : List CalendarEvent)
      → person_legs now lookahead person events es
        ≡ map (due_leg person events) (select (is_due now lookahead events) es)
  unfolding person_legs
  person_legs-due now lookahead person events [] = refl
  person_legs-due now lookahead person events (e ∷ es) =
      ap₂ kept (leg_of-due now lookahead person events e)
        (person_legs-due now lookahead person events es)
      ∙ go (is_due now lookahead events e)
    where
      go :
          (d : Bool)
          → kept
              (if d then some (due_leg person events e) else none)
              (map (due_leg person events) (select (is_due now lookahead events) es))
            ≡ map (due_leg person events) (
                if d
                then e ∷ select (is_due now lookahead events) es
                else select (is_due now lookahead events) es)
      go true = refl
      go false = refl

  -- The drives to look at are those of every person's due events, in order: events that are not of
  -- the whole day, start in the window, take a drive, and do not start from where they are. The
  -- origin that the loop works out for itself is the one that `resolve_origin` gives.
  pub upcoming_commutes-due :
      (now lookahead : ℕ) (calendars : Calendars)
      → upcoming_commutes now lookahead calendars ≡ due_legs now lookahead calendars
  unfolding upcoming_commutes
  upcoming_commutes-due now lookahead [] = refl
  upcoming_commutes-due now lookahead ((person, events) ∷ rest) =
      ap₂ (λ xs ys. xs ++ ys) (person_legs-due now lookahead person events events)
        (upcoming_commutes-due now lookahead rest)
