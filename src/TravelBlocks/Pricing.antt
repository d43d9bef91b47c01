-- ===== src/TravelBlocks/Pricing.antt =====
-- src/family/travel_blocks_pricing.py: what each drive takes, asked of the Routes API.
pub mod Answered
pub mod Calls
use whatsapp_radar.Base.{
  ℕ, suc, ◌/◌, String, ◌≡◌, refl, Bool, true, false, ◌&&◌, Option, none, some, List, [], ◌∷◌, ◌++◌,
  ◌==◌, eqb, leb, find, if◌then◌else◌,
}
use whatsapp_radar.Family.Events.{Moment, until, minute}
use whatsapp_radar.TravelBlocks.Model.{leg_key}
use whatsapp_radar.TravelBlocks.Desired.{LegRequest, request_key}

pub data FailureReason : Type 0 where
  routes_error anchor_in_the_past existing_blocks_unreadable : FailureReason

pub record LegFailure : Type 0 where
  pub person : String
  pub calendar_id : String
  pub source_event_id : String
  pub leg : String
  pub reason : FailureReason
  pub detail : String

-- `leg_key` of a failure.
abbrev pub failure_key : LegFailure → String
failure_key f = leg_key f.calendar_id f.source_event_id f.leg

-- `dict[str, float]`, in seconds: a later entry of a key stands before an earlier one, and hides it.
abbrev pub Durations : Type 0
Durations = List (String × ℕ)

abbrev pub duration_of : String → Durations → Option ℕ
duration_of k d = elim (find (λ e. e.0 == k) d) [ none ↦ none | some e ↦ some e.1 ]

pub record PricedLegs : Type 0 where
  pub durations : Durations
  pub failures : List LegFailure
  pub routes_calls : ℕ

-- A call of Routes: the text of a `TrafficReadError`, or the seconds that the drive takes.
pub data Routed : Type 0 where
  unread : String → Routed
  seconds : ℕ → Routed

-- Origin, destination and the minute of the departure.
abbrev pub CallKey : Type 0
CallKey = String × String × ℕ

unfoldable pub call_key : LegRequest → CallKey
call_key r = (r.origin, r.destination, r.anchor.instant / minute)

abbrev pub same_call : CallKey → CallKey → Bool
same_call (o, d, t) (p, e, u) = o == p && (d == e && eqb t u)

abbrev pub failure : LegRequest → FailureReason → String → LegFailure
failure r reason detail = record {
  person = r.person;
  calendar_id = r.calendar_id;
  source_event_id = r.source_event_id;
  leg = r.leg;
  reason = reason;
  detail = detail;
}

-- The variables of the loop.
pub record Sweep : Type 0 where
  pub durations : Durations
  pub failures : List LegFailure
  pub outcomes : List (CallKey × Routed)
  pub routes_calls : ℕ

abbrev pub cached : CallKey → Sweep → Option Routed
cached k s = elim (find (λ e. same_call e.0 k) s.outcomes) [ none ↦ none | some e ↦ some e.1 ]

-- The end of the loop body: the outcome is a failure of the leg, or its duration.
unfoldable pub settle_outcome : LegRequest → Routed → Sweep → Sweep
settle_outcome r (unread detail) s = record s {
  failures = s.failures ++ failure r routes_error detail ∷ [];
}
settle_outcome r (seconds n) s = record s { durations = (request_key r, n) ∷ s.durations }

abbrev pub new_sweep : Sweep
new_sweep = record { durations = []; failures = []; outcomes = []; routes_calls = 0 }

-- `route n origin destination departure` is what the `n`-th call of the sweep gives.
module _ (route : ℕ → String → String → Moment → Routed) (now : Moment) where
  unfoldable pub with_outcome : LegRequest → Option Routed → Sweep → Sweep
  with_outcome r (some known) s = settle_outcome r known s
  with_outcome r none s =
      let answer = route s.routes_calls r.origin r.destination r.anchor in
      settle_outcome r answer (record s {
        outcomes = s.outcomes ++ (call_key r, answer) ∷ [];
        routes_calls = suc s.routes_calls;
      })

  -- The body of the loop.
  unfoldable pub price_one : LegRequest → Sweep → Sweep
  price_one r s =
      if until r.anchor now
      then record s {
        failures =
            s.failures
            ++ failure r anchor_in_the_past
                "departure moment has already passed; Routes prices only future departures"
              ∷ [];
      }
      else with_outcome r (cached (call_key r) s) s

  unfoldable pub price_each : List LegRequest → Sweep → Sweep
  price_each [] s = s
  price_each (r ∷ rs) s = price_each rs (price_one r s)

  unfoldable pub price_legs : List LegRequest → PricedLegs
  price_legs rs =
      let s = price_each rs new_sweep in
      record { durations = s.durations; failures = s.failures; routes_calls = s.routes_calls }
