-- ===== src/Family/Conflicts.antt =====
-- src/family/rules.py: the hours of a day that someone must be at home for, and who is away in them.
pub mod Covered
use Prim.Native.Char.{code}
use whatsapp_radar.Base.{
  ℕ, String, ◌+◌, ◌*◌, ◌≡◌, refl, ap, inl, inr, Bool, true, false, not, ◌&&◌, Option, none, some,
  List, [], ◌∷◌, ◌++◌, arith, ◌==◌, eq_iff, eqb, any, select, map, find, All, All-append, ltb, leb,
  length, count_where, if◌then◌else◌, Bool-cases,
}
use whatsapp_radar.Base.Text.{join}
use whatsapp_radar.Family.Events.{CalendarEvent, Moment, Words, Calendars, until}
use whatsapp_radar.Family.Location.{location_kind}
use whatsapp_radar.Family.Overlaps.{Conflict}

pub record ChildcareWindow : Type 0 where
  pub label : String
  pub time : String
  pub end_time : String
  pub weekdays : List ℕ

-- The fields of `FamilyConfig` that the check reads.
pub record FamilyConfig : Type 0 where
  pub home_address : String
  pub childcare_windows : List ChildcareWindow
  pub kids_home_time : String
  pub responsible_by_weekday : List (ℕ × String)

-- A day, its zone, and what the code calls of Python's library: `int`, with `none` for a text that is
-- no number or a negative one, `datetime.combine` and `time.strftime`. A `time` is its minute.
pub record Day : Type 0 where
  pub weekday : ℕ
  pub iso : String
  pub combine : ℕ → Moment
  pub hhmm : ℕ → String
  pub int : String → Option ℕ

-- `value.split(":")`
unfoldable pub split_colon : String → List String
split_colon String.[] = "" ∷ []
split_colon (String.◌∷◌ c s) =
    let pieces = split_colon s in
    if eqb (code c) 58 then "" ∷ pieces else elim pieces [ [] ↦ [] | p ∷ ps ↦ String.◌∷◌ c p ∷ ps ]

-- `time(int(hh), int(mm))`
abbrev pub time_of : Option ℕ → Option ℕ → Option ℕ
time_of (some h) (some m) = if ltb h 24 && ltb m 60 then some (h * 60 + m) else none
time_of (some h) none = none
time_of none m = none

unfoldable pub parse_hhmm : Day → String → Option ℕ
parse_hhmm d value = elim (split_colon value) [
  | hh ∷ mm ∷ [] ↦ time_of (d.int hh) (d.int mm)
  | pieces ↦ none
]

-- Label, start and end.
abbrev pub Hours : Type 0
Hours = String × ℕ × ℕ

-- `if end is None or end < start: end = start`
abbrev pub clamped : ℕ → Option ℕ → ℕ
clamped start none = start
clamped start (some end_) = if ltb end_ start then start else end_

unfoldable pub window_at : Day → ChildcareWindow → Option ℕ → List Hours
window_at d window none = []
window_at d window (some start) =
    let finish = if window.end_time == "" then some start else parse_hhmm d window.end_time in
    (window.label, start, clamped start finish) ∷ []

-- The body of the loop over the configured windows.
unfoldable pub hours_of : Day → ChildcareWindow → List Hours
hours_of d window =
    if not (any (λ n. eqb n d.weekday) window.weekdays)
    then []
    else window_at d window (parse_hhmm d window.time)

unfoldable pub childcare_hours : Day → List ChildcareWindow → List Hours
childcare_hours d [] = []
childcare_hours d (window ∷ windows) = hours_of d window ++ childcare_hours d windows

unfoldable pub kids_home_hours : Day → Option ℕ → List Hours
kids_home_hours d none = []
kids_home_hours d (some t) = if ltb d.weekday 5 then ("kids home", t, t) ∷ [] else []

unfoldable pub day_windows : FamilyConfig → Day → List Hours
day_windows family d =
    childcare_hours d family.childcare_windows
    ++ kids_home_hours d (parse_hhmm d family.kids_home_time)

unfoldable pub person_away_between : Words → String → List CalendarEvent → Moment → Moment → Bool
person_away_between w home events start finish =
    any
      (λ e.
        not e.all_day
        && ((location_kind w e home == "away") && (until e.start finish && until start e.finish)))
      events

-- `not available`
abbrev pub is_empty : Calendars → Bool
is_empty [] = true
is_empty (p ∷ ps) = false

module _ (w : Words) (family : FamilyConfig) (d : Day) (calendars : Calendars) where
  -- Whether a person of the calendars is away at some time of a window.
  abbrev pub is_away : Hours → String × List CalendarEvent → Bool
  is_away (label, start, finish) (person, events) =
      person_away_between w family.home_address events (d.combine start) (d.combine finish)

  -- The set `away`, by its names.
  unfoldable pub away : Hours → List String
  away hours = map (λ p. p.0) (select (is_away hours) calendars)

  unfoldable pub available : Hours → Calendars
  available hours = select (λ p. not (any (λ name. name == p.0) (away hours))) calendars

  abbrev pub responsible : Option String
  responsible = elim (find (λ r. eqb r.0 d.weekday) family.responsible_by_weekday) [
    | none ↦ none
    | some (weekday, person) ↦ if person == "" then none else some person
  ]

  -- `responsible and responsible in away`
  abbrev pub on_duty_away : Hours → Option String → Bool
  on_duty_away hours none = false
  on_duty_away hours (some person) = any (λ name. person == name) (away hours)

  abbrev pub gap : String → Conflict
  gap detail = record { kind = "coverage_gap"; day = d.iso; detail = detail }

  abbrev pub name_or_empty : Option String → String
  name_or_empty none = ""
  name_or_empty (some person) = person

  -- The body of the loop over the windows.
  unfoldable pub conflicts_of : Hours → List Conflict
  conflicts_of hours =
      if on_duty_away hours responsible
      then gap (
          join "" (
            name_or_empty responsible
            ∷ " is on duty for '"
            ∷ hours.0
            ∷ "' at "
            ∷ d.hhmm hours.1
            ∷ " but has an away commitment"
            ∷ []))
        ∷ []
      else if is_empty (available hours)
      then gap (join "" ("No parent is available for '" ∷ hours.0 ∷ "' at " ∷ d.hhmm hours.1 ∷ []))
        ∷ []
      else []

  unfoldable pub conflicts_in : List Hours → List Conflict
  conflicts_in [] = []
  conflicts_in (hours ∷ rest) = conflicts_of hours ++ conflicts_in rest

  unfoldable pub find_conflicts : List Conflict
  find_conflicts = conflicts_in (day_windows family d)
