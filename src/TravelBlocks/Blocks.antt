-- ===== src/TravelBlocks/Blocks.antt =====
-- src/family/travel_blocks_reconcile.py: the block that was read back, its parse from a fetched
-- event resource, the delete guard's predicate, its start, and the resource that is inserted.
pub mod RoundTrip
use whatsapp_radar.Base.{
  String, ◌≡◌, refl, Bool, true, false, Option, none, some, List, [], ◌∷◌, ◌==◌, if◌then◌else◌,
}
use whatsapp_radar.Base.Json.{
  Value, Fields, bool, str, arr, nil, obj, end, field, get, get_in, truthy,
}
use whatsapp_radar.TravelBlocks.Model.{
  Datetime, aware, naive, Runtime, marker_key, marker_value, source_event_key, leg_field,
  schema_version_key, hash_key, PlannedLeg, leg_key, block_marker,
}

pub record ExistingBlock : Type 0 where
  pub calendar_id : String
  pub event_id : String
  pub source_event_id : String
  pub leg : String
  pub schema_version : String
  pub stored_hash : String
  pub start : String
  pub resource : Fields

-- `ExistingBlock.key`
abbrev pub block_key : ExistingBlock → String
block_key b = leg_key b.calendar_id b.source_event_id b.leg

-- A `dict[str, str]`.
abbrev pub TextMap : Type 0
TextMap = List (String × String)

-- `private.get(key, default)`
abbrev pub get_text : String → String → TextMap → String
get_text default k [] = default
get_text default k ((j, v) ∷ m) = let rest = get_text default k m in if j == k then v else rest

module _ (rt : Runtime) where
  -- `str(value)`
  abbrev pub text_of : Value → String
  text_of (str s) = s
  text_of other = rt.str_of_other other

  -- `str(value or "")`
  abbrev pub text_or_empty : Option Value → String
  text_or_empty none = ""
  text_or_empty (some v) = if truthy (some v) then text_of v else ""

  abbrev texts : Fields → TextMap
  texts end = []
  texts (field k v fs) = (k, text_of v) ∷ texts fs

  abbrev mapping_texts : Option Value → TextMap
  mapping_texts (some (obj fs)) = texts fs
  mapping_texts (some other) = []
  mapping_texts none = []

  unfoldable pub private_properties : Fields → TextMap
  unfolding get get_in
  private_properties raw = mapping_texts (get_in "private" (get "extendedProperties" raw))

  -- `private.get(MARKER_KEY) == MARKER_VALUE`: a missing key is no marker, so the default is any
  -- text but the marker's value.
  unfoldable pub carries_marker : Fields → Bool
  unfolding private_properties
  carries_marker raw = get_text "" marker_key (private_properties raw) == marker_value

  -- `start.get("dateTime") or start.get("date") or ""`
  abbrev first_start : Option Value → Option Value → String
  first_start date_time date =
      if truthy date_time then text_or_empty date_time else text_or_empty date

  -- `raw.get("start") or {}`, with the empty text for what is no mapping
  abbrev start_text : Option Value → String
  start_text (some (obj fs)) = first_start (get "dateTime" fs) (get "date" fs)
  start_text (some other) = ""
  start_text none = ""

  unfoldable pub parse_existing_block : Fields → String → Option ExistingBlock
  unfolding carries_marker
  parse_existing_block raw calendar_id =
      let private = private_properties raw in
      let event_id = text_or_empty (get "id" raw) in
      if carries_marker raw
      then (if event_id == ""
          then none
          else some (record {
            calendar_id = calendar_id;
            event_id = event_id;
            source_event_id = get_text "" source_event_key private;
            leg = get_text "" leg_field private;
            schema_version = get_text "" schema_version_key private;
            stored_hash = get_text "" hash_key private;
            start = start_text (get "start" raw);
            resource = raw;
          }))
      else none

  abbrev aware_only : Option Datetime → Option Datetime
  aware_only (some (aware instant offset)) = some (aware instant offset)
  aware_only (some (naive local)) = none
  aware_only none = none

  unfoldable pub block_start_moment : ExistingBlock → Option Datetime
  block_start_moment b = if b.start == "" then none else aware_only (rt.fromisoformat b.start)

  unfoldable pub build_block_event : PlannedLeg → String → Fields
  unfolding block_marker
  build_block_event l title_template = field "summary" (str title_template) (
      field "location" (str l.destination) (
        field "start" (obj (field "dateTime" (str (rt.isoformat l.start)) end)) (
          field "end" (obj (field "dateTime" (str (rt.isoformat l.finish)) end)) (
            field "transparency" (str "opaque") (
              field "visibility" (str "private") (
                field "reminders"
                  (obj (field "useDefault" (bool false) (field "overrides" (arr nil) end)))
                  (field "extendedProperties" (obj (field "private" (obj (block_marker rt l)) end))
                    end)))))))
