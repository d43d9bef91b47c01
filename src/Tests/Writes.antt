-- ===== src/Tests/Writes.antt =====
-- A plan that is carried out on the calendars.
use whatsapp_radar.Base.{◌≡◌, ◌+◌, refl, true, none, some, [], ◌∷◌, All, length}
use whatsapp_radar.Base.Json.{get, get_in}
use whatsapp_radar.TravelBlocks.Model.{leg_key, block_marker}
use whatsapp_radar.TravelBlocks.Blocks.{build_block_event, carries_marker, private_properties}
use whatsapp_radar.TravelBlocks.Blocks.RoundTrip.{read_back}
use whatsapp_radar.TravelBlocks.Reconcile.{replaced, orphaned}
use whatsapp_radar.TravelBlocks.Plan.{TravelBlockPlan, ok}
use whatsapp_radar.TravelBlocks.Write.{
  Outside, Capabilities, writable, apply_travel_blocks, apply_deletes, apply_delete, apply_inserts,
  apply_insert, capability_skip, passes_guard,
}
use whatsapp_radar.TravelBlocks.Write.Counted.{IsAccounted, apply_travel_blocks-IsAccounted}
use whatsapp_radar.TravelBlocks.Write.Guarded.{IsGuarded, apply_travel_blocks-IsGuarded}
use whatsapp_radar.TravelBlocks.Write.Stale.{IsFresh, apply_travel_blocks-IsFresh}
use whatsapp_radar.Tests.Samples.{runtime, outbound, block}

-- The calendar refuses to delete.
abbrev outside : Outside
outside = record {
  backup = λ es b. none;
  delete = λ es b. some "HTTP 500";
  insert = λ es l. none;
  refusal = λ b. "refusing to delete";
}

abbrev capabilities : Capabilities
capabilities = ("family", writable) ∷ []

-- The stale block of a leg, a block whose resource has no marker, and the leg.
abbrev plan : TravelBlockPlan
plan = record {
  status = ok;
  dry_run = true;
  legs = outbound ∷ [];
  adds = outbound ∷ [];
  deletes =
      record { block = read_back runtime outbound "Travel" "b9"; reason = replaced }
      ∷ record { block = block "b3" "gone" "outbound" "h" "t100"; reason = orphaned }
      ∷ [];
  failures = [];
  routes_calls = 0;
  keeps = [];
  protected = [];
  horizon = none;
}

-- One delete is tried, and neither it nor the refused one nor the insert counts.
one_call :
    (length (apply_travel_blocks runtime outside capabilities plan).effects ≡ 2)
    × ((apply_travel_blocks runtime outside capabilities plan).skipped ≡ 3)
unfolding apply_travel_blocks apply_deletes apply_delete apply_inserts apply_insert capability_skip
    passes_guard carries_marker private_properties get get_in build_block_event block_marker leg_key
one_call = (refl, refl)

apply_travel_blocks-IsAccounted_example :
    IsAccounted
      (length plan.deletes + length plan.adds)
      (apply_travel_blocks runtime outside capabilities plan)
apply_travel_blocks-IsAccounted_example =
    apply_travel_blocks-IsAccounted runtime outside capabilities plan

apply_travel_blocks-IsGuarded_example :
    IsGuarded runtime outside capabilities
      (apply_travel_blocks runtime outside capabilities plan).effects
apply_travel_blocks-IsGuarded_example =
    apply_travel_blocks-IsGuarded runtime outside capabilities plan

apply_travel_blocks-IsFresh_example :
    All
      (IsFresh (apply_travel_blocks runtime outside capabilities plan).failures)
      (apply_travel_blocks runtime outside capabilities plan).effects
apply_travel_blocks-IsFresh_example = apply_travel_blocks-IsFresh runtime outside capabilities plan
