-- ===== src/Family/QuietHours.antt =====
-- src/family/rules.py: the quiet window of the night.
use whatsapp_radar.Base.{
  ℕ, ◌+◌, ◌-◌, ◌%◌, ◌<◌, ◌≡◌, Bool, false, ◌&&◌, ◌||◌, arith, ltb, leb, eqb, if◌then◌else◌,
}

-- `now` comes as its hour.
unfoldable pub in_quiet_hours : (hour start_hour end_hour : ℕ) → Bool
in_quiet_hours hour start_hour end_hour =
    if eqb start_hour end_hour
    then false
    else if ltb start_hour end_hour
    then leb start_hour hour && ltb hour end_hour
    else leb start_hour hour || ltb hour end_hour

-- The hours on the clock from `start` to `hour`.
abbrev pub clock_distance : (start hour : ℕ) → ℕ
clock_distance start hour = (hour + 24 - start) % 24

-- On a clock of 24 hours, an hour is quiet exactly when it is nearer to the start of the window,
-- counted forwards, than the end of the window is, whether or not the window passes midnight.
pub in_quiet_hours-clock_distance :
    (hour start_hour end_hour : ℕ)
    → hour < 24
    → start_hour < 24
    → end_hour < 24
    → in_quiet_hours hour start_hour end_hour
      ≡ ltb (clock_distance start_hour hour) (clock_distance start_hour end_hour)
unfolding in_quiet_hours
in_quiet_hours-clock_distance hour start_hour end_hour h s e = ground arith
