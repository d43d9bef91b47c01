-- ===== src/Family/Location.antt =====
-- src/family/rules.py: where an event places its person, and whether it takes a drive.
use whatsapp_radar.Base.{
  String, ◌≡◌, refl, inl, inr, Bool, true, false, not, ◌&&◌, Option, none, some, List, [], ◌∷◌,
  ◌++◌, arith, ◌==◌, any, select, map, length, leb, if◌then◌else◌, Bool-cases, Option-cases,
}
use whatsapp_radar.Keywords.{is_infix}
use whatsapp_radar.Family.Events.{CalendarEvent, Words, Calendars}
use whatsapp_radar.Family.Addresses.{same_address}

abbrev pub video_hints : List String
video_hints = "meet.google.com" ∷ "zoom.us" ∷ "teams.microsoft.com" ∷ "teams.live.com" ∷ []

pub record LocationDecision : Type 0 where
  pub kind : String
  pub source : String
  pub assumed : Bool

-- `if event.video_link`
abbrev pub has_video : CalendarEvent → Bool
has_video e = elim e.video_link [ none ↦ false | some link ↦ not (link == "") ]

module _ (w : Words) where
  unfoldable pub is_video_only : String → Bool
  unfolding is_infix
  is_video_only location =
      let loc = w.strip location in
      any (λ hint. is_infix hint (w.lower loc)) video_hints && leb (length (w.split loc)) 1

  unfoldable pub physical_location : CalendarEvent → Option String
  unfolding is_video_only
  physical_location e =
      let loc = w.strip e.location in
      if loc == "" then none else if is_video_only loc then none else some loc

  unfoldable pub is_en_casa : CalendarEvent → Bool
  unfolding is_infix
  is_en_casa e = is_infix "(en casa)" (w.lower e.summary)

  unfoldable pub is_train_commute : CalendarEvent → List String → Bool
  is_train_commute e keywords =
      let summary = w.lower e.summary in
      any (λ k. not (w.strip k == "") && w.has_word (w.lower (w.strip k)) summary) keywords

  unfoldable pub requires_commute : CalendarEvent → String → Bool
  requires_commute e home =
      if is_en_casa e
      then false
      else elim (physical_location e) [ none ↦ false | some dest ↦ not (same_address w dest home) ]

  unfoldable pub decide_location : CalendarEvent → String → LocationDecision
  decide_location e home =
      if is_en_casa e
      then record { kind = "home"; source = "en_casa_marker"; assumed = false }
      else elim (physical_location e) [
        | some dest ↦
            if same_address w dest home
            then record { kind = "home"; source = "home_address"; assumed = false }
            else record { kind = "away"; source = "physical_address"; assumed = false }
        | none ↦
            if has_video e
            then record { kind = "home"; source = "video_only"; assumed = false }
            else record { kind = "home"; source = "assumed_home"; assumed = true }
      ]

  abbrev pub location_kind : CalendarEvent → String → String
  location_kind e home = (decide_location e home).kind

  -- The timed events of one person whose place is assumed.
  abbrev pub is_unplaced : String → CalendarEvent → Bool
  is_unplaced home e = not e.all_day && (decide_location e home).assumed

  unfoldable pub find_missing_locations : Calendars → String → List (String × CalendarEvent)
  unfolding decide_location
  find_missing_locations [] home = []
  find_missing_locations ((person, events) ∷ rest) home =
      map (λ e. (person, e)) (select (is_unplaced home) events) ++ find_missing_locations rest home

  -- An event takes a drive exactly when the daily check places its person away from home: the two
  -- functions, which each look at the title, the address and the home address, agree on all events.
  pub requires_commute-location_kind :
      (e : CalendarEvent) (home : String)
      → requires_commute e home ≡ ((decide_location e home).kind == "away")
  unfolding requires_commute decide_location
  requires_commute-location_kind e home = elim (Bool-cases (is_en_casa e)) [
    | inl c ↦ rw c refl
    | inr c ↦ elim (Option-cases (physical_location e)) [
      | inl p ↦ elim (Bool-cases (has_video e)) [
        | inl v ↦ rw (c, p, v) refl
        | inr v ↦ rw (c, p, v) refl
      ]
      | inr (dest, p) ↦ elim (Bool-cases (same_address w dest home)) [
        | inl a ↦ rw (c, p, a) refl
        | inr a ↦ rw (c, p, a) refl
      ]
    ]
  ]

  pub requires_commute-none :
      (e : CalendarEvent) (home : String)
      → physical_location e ≡ none
      → requires_commute e home ≡ false
  unfolding requires_commute
  requires_commute-none e home p = rw p (ground arith)

  pub physical_location-nonempty :
      (e : CalendarEvent) (dest : String) → physical_location e ≡ some dest → (dest == "") ≡ false
  unfolding physical_location
  physical_location-nonempty e dest p = ground arith
