-- ===== src/Tests/Household.antt =====
-- The family's day, its drives and its blocks, and a sync of two sources.
use whatsapp_radar.Base.{
  ◌≡◌, ◌≤◌, refl, Bool, true, none, some, List, [], ◌∷◌, ◌++◌, map, ◌==◌, arith, All, length,
  count_where,
}
use whatsapp_radar.Base.Sort.{sort}
use whatsapp_radar.Base.Text.{join}
use whatsapp_radar.Keywords.{is_infix}
use whatsapp_radar.Family.Addresses.{
  clean, norm_address, same_address, starts, occurs, match_tokens, same_address_comm,
}
use whatsapp_radar.Family.Location.{
  is_video_only, physical_location, is_en_casa, requires_commute, decide_location, location_kind,
  requires_commute-location_kind,
}
use whatsapp_radar.Family.Commutes.{
  latest, location_or, may_precede, origin_source_event, leg_of, person_legs, upcoming_commutes,
  due_legs, upcoming_commutes-due,
}
use whatsapp_radar.Family.Overlaps.{
  overlaps_of, person_overlaps, find_overlaps, all_clashes, find_overlaps-all,
}
use whatsapp_radar.Family.QuietHours.{in_quiet_hours, clock_distance, in_quiet_hours-clock_distance}
use whatsapp_radar.Family.Conflicts.{
  split_colon, parse_hhmm, window_at, hours_of, childcare_hours, kids_home_hours, day_windows,
  person_away_between, away, available, conflicts_of, conflicts_in, find_conflicts,
}
use whatsapp_radar.Family.Conflicts.Covered.{
  InDay, IsCovered, day_windows-InDay, find_conflicts-IsCovered,
}
use whatsapp_radar.Tests.Week.{on_spaces, words, at, dentist, calendars, family, monday}

same_address_comm_example :
    same_address words "clinic road" "2 clinic road"
    ≡ same_address words "2 clinic road" "clinic road"
same_address_comm_example = same_address_comm words "clinic road" "2 clinic road"

found : same_address words "clinic road" "2 clinic road" ≡ true
unfolding same_address norm_address clean join on_spaces match_tokens occurs starts
found = refl

requires_commute-location_kind_example :
    requires_commute words dentist "home street"
    ≡ (location_kind words dentist "home street" == "away")
requires_commute-location_kind_example = requires_commute-location_kind words dentist "home street"

upcoming_commutes-due_example :
    upcoming_commutes words "home street" 60 (at 590).instant (at 120).instant calendars
    ≡ due_legs words "home street" 60 (at 590).instant (at 120).instant calendars
upcoming_commutes-due_example =
    upcoming_commutes-due words "home street" 60 (at 590).instant (at 120).instant calendars

-- The second drive starts where the first event is.
two_drives :
    map
      (λ l. l.origin)
      (upcoming_commutes words "home street" 60 (at 590).instant (at 120).instant calendars)
    ≡ "home street" ∷ "clinic road" ∷ []
unfolding upcoming_commutes person_legs leg_of requires_commute is_en_casa is_infix
    physical_location is_video_only same_address norm_address clean join on_spaces match_tokens
    occurs starts origin_source_event may_precede latest location_or
two_drives = refl

in_quiet_hours_example :
    in_quiet_hours 2 20 5 ≡ whatsapp_radar.Base.ltb (clock_distance 20 2) (clock_distance 20 5)
in_quiet_hours_example =
    in_quiet_hours-clock_distance 2 20 5 (omega arith) (omega arith) (omega arith)

find_overlaps-all_example : find_overlaps words calendars ≡ all_clashes words calendars
find_overlaps-all_example = find_overlaps-all words calendars

one_overlap : length (find_overlaps words calendars) ≡ 1
unfolding find_overlaps person_overlaps overlaps_of sort physical_location is_video_only is_infix
    same_address norm_address clean join on_spaces match_tokens occurs starts
one_overlap = refl

day_windows-InDay_example : All InDay (day_windows family monday)
day_windows-InDay_example = day_windows-InDay family monday

no_conflict : find_conflicts words family monday calendars ≡ []
unfolding find_conflicts conflicts_in conflicts_of day_windows childcare_hours hours_of window_at
    kids_home_hours parse_hhmm split_colon away available person_away_between decide_location
    is_en_casa is_infix physical_location is_video_only same_address norm_address clean join
    on_spaces match_tokens occurs starts
no_conflict = refl

find_conflicts-IsCovered_example :
    All (IsCovered words family monday calendars) (day_windows family monday)
find_conflicts-IsCovered_example =
    find_conflicts-IsCovered words family monday calendars no_conflict
