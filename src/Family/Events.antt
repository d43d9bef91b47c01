-- ===== src/Family/Events.antt =====
-- src/calendar_readonly/core.py's `CalendarEvent`, and what src/family/rules.py calls of Python's library.
use whatsapp_radar.Base.{ℕ, String, Bool, Option, List, ltb, leb}
use whatsapp_radar.TravelBlocks.Model.{Datetime, aware}

-- An aware `datetime`: its instant, in microseconds from the first that the type has, and its offset.
pub record Moment : Type 0 where
  pub instant : ℕ
  pub offset : String

abbrev pub datetime : Moment → Datetime
datetime m = aware m.instant m.offset

-- `a < b` and `a <= b` compare instants, whatever the offsets.
abbrev pub before : Moment → Moment → Bool
before a b = ltb a.instant b.instant

abbrev pub until : Moment → Moment → Bool
until a b = leb a.instant b.instant

-- `timedelta(minutes=1)`
abbrev pub minute : ℕ
minute = 60000000

pub record CalendarEvent : Type 0 where
  pub event_id : String
  pub calendar_id : String
  pub summary : String
  pub location : String
  pub description : String
  pub start : Moment
  pub finish : Moment
  pub all_day : Bool
  pub video_link : Option String
  pub status : String
  pub extended_private : List (String × String)

-- `str.lower`, `str.strip`, `str.split`, the test of a character that survives in a normal form, the
-- search for a whole word, and the two renderings of a moment.
pub record Words : Type 0 where
  pub lower : String → String
  pub strip : String → String
  pub split : String → List String
  pub is_kept : ℕ → Bool
  pub has_word : (keyword text : String) → Bool
  pub iso_date : Moment → String
  pub hhmm : Moment → String

-- `dict[str, list[CalendarEvent]]`, in the order of its keys.
abbrev pub Calendars : Type 0
Calendars = List (String × List CalendarEvent)
