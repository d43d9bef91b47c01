-- ===== src/TravelBlocks/Model.antt =====
-- src/family/travel_blocks_model.py: the marker vocabulary, the planned leg and its identity.
use Prim.Native.String.{◌++◌}
use whatsapp_radar.Base.{ℕ, String, Option, [], ◌∷◌}
use whatsapp_radar.Base.Json.{Value, Fields, str, end, field}
use whatsapp_radar.Base.Text.{join, decimal, take_text}

-- A `datetime`: an aware one is its instant, in microseconds, and the name of its offset.
pub data Datetime : Type 0 where
  aware : (instant : ℕ) (offset : String) → Datetime
  naive : (local : ℕ) → Datetime

-- What the code calls of Python's library: `hashlib.sha256(…).hexdigest()`, the two conversions
-- of `datetime` (`none` for a `ValueError`), and `str` on a value that is no text.
pub record Runtime : Type 0 where
  pub sha256_hex : String → String
  pub isoformat : Datetime → String
  pub fromisoformat : String → Option Datetime
  pub str_of_other : Value → String

abbrev pub marker_key : String
marker_key = "wr_travel_block"

abbrev pub marker_value : String
marker_value = "1"

abbrev pub source_event_key : String
source_event_key = "wr_source_event_id"

abbrev pub leg_field : String
leg_field = "wr_leg"

abbrev pub schema_version_key : String
schema_version_key = "wr_schema_version"

abbrev pub hash_key : String
hash_key = "wr_hash"

abbrev pub schema_version : String
schema_version = "1"

pub record PlannedLeg : Type 0 where
  pub person : String
  pub calendar_id : String
  pub leg : String
  pub source_event_id : String
  pub origin : String
  pub destination : String
  pub start : Datetime
  pub finish : Datetime
  pub source_start : Datetime
  pub source_end : Datetime
  pub minutes : ℕ

unfoldable pub leg_key : String → String → String → String
leg_key calendar_id source_event_id leg =
    calendar_id ++ ("::" ++ (source_event_id ++ ("::" ++ leg)))

-- `PlannedLeg.key`
abbrev pub planned_key : PlannedLeg → String
planned_key l = leg_key l.calendar_id l.source_event_id l.leg

module _ (rt : Runtime) where
  unfoldable pub content_hash : (origin destination : String) → Datetime → Datetime → ℕ → String
  content_hash origin destination source_start source_end minutes = take_text 16 (
      rt.sha256_hex (
        join "\u{1f}" (
          schema_version
          ∷ origin
          ∷ destination
          ∷ rt.isoformat source_start
          ∷ rt.isoformat source_end
          ∷ decimal minutes
          ∷ [])))

  -- `PlannedLeg.content_hash`
  abbrev pub planned_hash : PlannedLeg → String
  planned_hash l = content_hash l.origin l.destination l.source_start l.source_end l.minutes

  unfoldable pub block_marker : PlannedLeg → Fields
  block_marker l = field marker_key (str marker_value) (
      field source_event_key (str l.source_event_id) (
        field leg_field (str l.leg) (
          field schema_version_key (str schema_version)
            (field hash_key (str (planned_hash l)) end))))
