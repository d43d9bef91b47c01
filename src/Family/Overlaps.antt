-- ===== src/Family/Overlaps.antt =====
-- src/family/rules.py: the pairs of events that put one person in two places at once.
use whatsapp_radar.Base.{
  String, ◌≡◌, refl, ap, ap₂, ◌∙◌, inl, inr, Bool, true, false, not, ◌&&◌, Option, none, some, List,
  [], ◌∷◌, ◌++◌, arith, ◌==◌, select, map, All, if◌then◌else◌, is_none, Bool-cases,
}
use whatsapp_radar.Base.Sort.{sort, IsSorted, sort-IsSorted}
use whatsapp_radar.Base.Text.{join}
use whatsapp_radar.Family.Events.{CalendarEvent, Words, Calendars, before, until}
use whatsapp_radar.Family.Addresses.{same_address}
use whatsapp_radar.Family.Location.{physical_location}

pub record Conflict : Type 0 where
  pub kind : String
  pub day : String
  pub detail : String

-- `key=lambda e: e.start`
abbrev pub by_start : CalendarEvent → CalendarEvent → Bool
by_start a b = until a.start b.start

-- `first_dest and second_dest and not same_address(first_dest, second_dest)`
abbrev pub apart : Words → Option String → Option String → Bool
apart w (some a) (some b) = not (a == "") && (not (b == "") && not (same_address w a b))
apart w (some a) none = false
apart w none b = false

module _ (w : Words) where
  abbrev pub is_placed : CalendarEvent → Bool
  is_placed e = not e.all_day && not (is_none (physical_location w e))

  unfoldable pub overlap : String → CalendarEvent → CalendarEvent → Conflict
  overlap person first second = record {
    kind = "impossible_overlap";
    day = w.iso_date first.start;
    detail = join "" (
        person
        ∷ " is booked in two places at once: '"
        ∷ first.summary
        ∷ "' and '"
        ∷ second.summary
        ∷ "' overlap at "
        ∷ w.hhmm second.start
        ∷ []);
  }

  -- The inner loop, with its `break`.
  unfoldable pub overlaps_of : String → CalendarEvent → List CalendarEvent → List Conflict
  overlaps_of person first [] = []
  overlaps_of person first (second ∷ later) =
      let rest = overlaps_of person first later in
      if until first.finish second.start
      then []
      else if apart w (physical_location w first) (physical_location w second)
      then overlap person first second ∷ rest
      else rest

  unfoldable pub person_overlaps : String → List CalendarEvent → List Conflict
  person_overlaps person [] = []
  person_overlaps person (first ∷ later) =
      overlaps_of person first later ++ person_overlaps person later

  unfoldable pub find_overlaps : Calendars → List Conflict
  find_overlaps [] = []
  find_overlaps ((person, events) ∷ rest) =
      person_overlaps person (sort by_start (select is_placed events)) ++ find_overlaps rest

  -- What is expected: all pairs of placed events, the second of which begins before the first ends.
  abbrev pub is_clash : CalendarEvent → CalendarEvent → Bool
  is_clash first second =
      before second.start first.finish
      && apart w (physical_location w first) (physical_location w second)

  abbrev pub clashes : String → List CalendarEvent → List Conflict
  clashes person [] = []
  clashes person (first ∷ later) =
      map (overlap person first) (select (is_clash first) later) ++ clashes person later

  abbrev pub all_clashes : Calendars → List Conflict
  all_clashes [] = []
  all_clashes ((person, events) ∷ rest) =
      clashes person (sort by_start (select is_placed events)) ++ all_clashes rest

  -- After an event that begins too late, there is no clash.
  no_clash :
      (first second : CalendarEvent) (later : List CalendarEvent)
      → until first.finish second.start ≡ true
      → All (λ e. by_start second e ≡ true) later
      → select (is_clash first) later ≡ []
  no_clash first second [] u h = refl
  no_clash first second (e ∷ later) u h = ground (arith, no_clash first second later u h.1, h.0)

  begun :
      (first second : CalendarEvent)
      → until first.finish second.start ≡ false
      → apart w (physical_location w first) (physical_location w second) ≡ is_clash first second
  begun first second u = let b = go in rw b refl
    where
      go : before second.start first.finish ≡ true
      go = ground (arith, u)

  overlaps_of-clash :
      (person : String) (first : CalendarEvent) (later : List CalendarEvent)
      → IsSorted by_start later
      → overlaps_of person first later ≡ map (overlap person first) (select (is_clash first) later)
  unfolding overlaps_of
  overlaps_of-clash person first [] h = refl
  overlaps_of-clash person first (second ∷ later) h =
      elim (Bool-cases (until first.finish second.start)) [
        | inl u ↦ rw (u, no_clash first second (second ∷ later) u (ground arith, h.0)) refl
        | inr u ↦
            rw (u, overlaps_of-clash person first later h.1)
              (ap pick (begun first second u) ∙ go (is_clash first second))
      ]
    where
      pick : Bool → List Conflict
      pick b =
          if b
          then overlap person first second
            ∷ map (overlap person first) (select (is_clash first) later)
          else map (overlap person first) (select (is_clash first) later)

      go :
          (c : Bool)
          → pick c
            ≡ map (overlap person first) (
                if c then second ∷ select (is_clash first) later else select (is_clash first) later)
      go true = refl
      go false = refl

  person_overlaps-clash :
      (person : String) (events : List CalendarEvent)
      → IsSorted by_start events
      → person_overlaps person events ≡ clashes person events
  unfolding person_overlaps
  person_overlaps-clash person [] h = refl
  person_overlaps-clash person (first ∷ later) h =
      ap₂ (λ xs ys. xs ++ ys) (overlaps_of-clash person first later h.1)
        (person_overlaps-clash person later h.1)

  placed-IsSorted : (events : List CalendarEvent) → IsSorted by_start (sort by_start events)
  placed-IsSorted events =
      sort-IsSorted by_start (λ a b. ground arith) (λ a b c h k. ground arith) events

  -- The search, which for each event stops at the first one that begins too late, finds every pair
  -- of a person's placed events that overlap in time at two places, and nothing else.
  pub find_overlaps-all : (calendars : Calendars) → find_overlaps calendars ≡ all_clashes calendars
  unfolding find_overlaps
  find_overlaps-all [] = refl
  find_overlaps-all ((person, events) ∷ rest) =
      ap₂ (λ xs ys. xs ++ ys)
        (person_overlaps-clash person (sort by_start (select is_placed events))
          (placed-IsSorted (select is_placed events)))
        (find_overlaps-all rest)
