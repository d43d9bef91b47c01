-- ===== src/Tests/Week.antt =====
-- Calendars, routes and connectors that the examples run on.
use Prim.Native.Char.{code}
use whatsapp_radar.Base.{
  ℕ, ◌*◌, String, true, false, none, some, List, [], ◌∷◌, ◌==◌, eqb, if◌then◌else◌,
}
use whatsapp_radar.Keywords.{is_infix}
use whatsapp_radar.Family.Events.{Moment, CalendarEvent, Words, Calendars, minute}
use whatsapp_radar.Family.Conflicts.{FamilyConfig, Day}
use whatsapp_radar.Store.Rows.{ChatRecord}
use whatsapp_radar.Sync.{ConnectorBinding, offline, got}
use whatsapp_radar.TravelBlocks.Pricing.{Routed, unread, seconds}
use whatsapp_radar.TravelBlocks.Plan.{PlanConfig, ExistingBlocks}
use whatsapp_radar.Tests.Samples.{delivered, blocks}

unfoldable pub on_spaces : String → List String
on_spaces String.[] = "" ∷ []
on_spaces (String.◌∷◌ c s) =
    let pieces = on_spaces s in
    if eqb (code c) 32 then "" ∷ pieces else elim pieces [ [] ↦ [] | p ∷ ps ↦ String.◌∷◌ c p ∷ ps ]

abbrev pub words : Words
words = record {
  lower = λ s. s;
  strip = λ s. s;
  split = on_spaces;
  is_kept = λ c. true;
  has_word = is_infix;
  iso_date = λ m. "2026-01-05";
  hhmm = λ m. "10:00";
}

-- Some minutes into a day.
abbrev pub at : ℕ → Moment
at n = record { instant = n * minute; offset = "Z" }

abbrev pub visit : (event_id location : String) (start finish : ℕ) → CalendarEvent
visit event_id location start finish = record {
  event_id = event_id;
  calendar_id = "family";
  summary = event_id;
  location = location;
  description = "";
  start = at start;
  finish = at finish;
  all_day = false;
  video_link = none;
  status = "confirmed";
  extended_private = [];
}

abbrev pub dentist : CalendarEvent
dentist = visit "dentist" "clinic road" 600 660

-- It overlaps with the dentist.
abbrev pub lunch : CalendarEvent
lunch = visit "lunch" "market square" 640 720

abbrev pub written_block : CalendarEvent
written_block = record (visit "b1" "clinic road" 580 600) {
  extended_private = ("wr_travel_block", "1") ∷ [];
}

abbrev pub calendars : Calendars
calendars = ("ana", dentist ∷ lunch ∷ []) ∷ ("bea", visit "call" "" 600 660 ∷ []) ∷ []

abbrev pub calendars_with_block : Calendars
calendars_with_block =
    ("ana", dentist ∷ written_block ∷ lunch ∷ []) ∷ ("bea", visit "call" "" 600 660 ∷ []) ∷ []

abbrev pub family : FamilyConfig
family = record {
  home_address = "home street";
  childcare_windows =
      record { label = "school"; time = "9:0"; end_time = "9:30"; weekdays = 0 ∷ [] } ∷ [];
  kids_home_time = "17:30";
  responsible_by_weekday = (0, "bea") ∷ [];
}

abbrev pub monday : Day
monday = record {
  weekday = 0;
  iso = "2026-01-05";
  combine = at;
  hhmm = λ t. "17:30";
  int = λ s.
      if s == "9"
      then some 9
      else if s == "17"
      then some 17
      else if s == "30"
      then some 30
      else some 0;
}

abbrev pub plan_config : PlanConfig
plan_config = record {
  enabled = true;
  dry_run = false;
  horizon_days = 2;
  min_home_dwell_min = 30;
  assessment_days = 2;
  unknown_scan_days = 7;
  home_address = "home street";
  api_key = "k";
  origin_lookback_min = 60;
  train_keywords = [];
}

-- The first call fails, the others take twenty minutes.
abbrev pub route : ℕ → String → String → Moment → Routed
route n origin destination departure = if eqb n 0 then unread "HTTP 500" else seconds 1200

abbrev pub listed : ExistingBlocks
listed = record { blocks = blocks; unreadable = ("work", "HTTP 403") ∷ [] }

abbrev pub group : ChatRecord
group = record {
  source_chat_id = "g9";
  display_name = "Class";
  chat_type = "group";
  source = "whatsapp";
}

abbrev pub whatsapp : ConnectorBinding
whatsapp = record {
  source = "whatsapp";
  connector = record {
    prepare = none;
    list_chats = got (group ∷ []);
    fetch = λ id known. got (delivered "2024-02-01" ∷ delivered "2024-02-02" ∷ []);
  };
}

-- It goes offline at its first chat.
abbrev pub gmail : ConnectorBinding
gmail = record {
  source = "gmail";
  connector = record {
    prepare = none;
    list_chats = got (group ∷ []);
    fetch = λ id known. offline "gmail offline — token";
  };
}
