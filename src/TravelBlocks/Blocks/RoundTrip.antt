-- ===== src/TravelBlocks/Blocks/RoundTrip.antt =====
-- What the sweep writes, it recognises on the next listing.
use whatsapp_radar.Base.{String, ◌≡◌, refl, true, false, none, some, arith, ◌==◌, eq_iff}
use whatsapp_radar.Base.Json.{Fields, str, field}
use whatsapp_radar.TravelBlocks.Model.{Runtime, schema_version, PlannedLeg, planned_hash}
use whatsapp_radar.TravelBlocks.Blocks.{
  ExistingBlock, carries_marker, first_start, parse_existing_block, build_block_event,
}

module _ (rt : Runtime) (l : PlannedLeg) (title_template event_id : String) where
  -- The resource of the inserted event, with the id that the calendar gave it.
  abbrev pub inserted : Fields
  inserted = field "id" (str event_id) (build_block_event rt l title_template)

  -- The block as the reconcile knows it on the next sweep.
  abbrev pub read_back : ExistingBlock
  read_back = record {
    calendar_id = l.calendar_id;
    event_id = event_id;
    source_event_id = l.source_event_id;
    leg = l.leg;
    schema_version = schema_version;
    stored_hash = planned_hash rt l;
    start = rt.isoformat l.start;
    resource = inserted;
  }

  start_kept : (s : String) → first_start rt (some (str s)) none ≡ s
  start_kept s = ground (arith, eq_iff s "")

  -- The resource that is inserted for a leg, with any id that is not empty, is read back from the
  -- leg's calendar as the block of that leg: with its source event, its leg name, the current schema
  -- version, the leg's content hash and its start; and it carries the marker that the delete guard
  -- asks for.
  pub parse-build :
      (event_id == "") ≡ false
      → (parse_existing_block rt inserted l.calendar_id ≡ some read_back)
        × (carries_marker rt inserted ≡ true)
  unfolding parse_existing_block build_block_event
  parse-build h = simp (h, start_kept (rt.isoformat l.start)) (refl, refl)
