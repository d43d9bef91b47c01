-- ===== src/Tests/Sweeps.antt =====
-- A sync of two sources, and a sweep of the travel blocks.
use whatsapp_radar.Base.{
  ◌≡◌, refl, String, true, none, List, [], ◌∷◌, ◌++◌, map, All, arith, length,
}
use whatsapp_radar.Store.Messages.{length_of}
use whatsapp_radar.Sync.{no_delta, SyncRow, Ledger, ingest_chats, sync_sources}
use whatsapp_radar.Sync.Counts.{IsCounted, ingest_chats-IsCounted}
use whatsapp_radar.Sync.Kept.{IsKept, ingest_chats-IsKept}
use whatsapp_radar.Sync.Keyed.{IsKeyed}
use whatsapp_radar.Sync.Idle.{steady, IsIdle, ingest_chats-IsIdle}
use whatsapp_radar.Sync.Logged.{
  row_report, result_report, IsQuiet, sync_sources-log, sync_sources-IsQuiet,
}
use whatsapp_radar.TravelBlocks.Desired.{LegRequest, request_key, is_travel_block, desired_legs}
use whatsapp_radar.TravelBlocks.Desired.Unfed.{done, event, block, nobody, person, desired_legs-Fed}
use whatsapp_radar.TravelBlocks.Pricing.{price_legs}
use whatsapp_radar.TravelBlocks.Pricing.Answered.{is_answered, price_legs-answered}
use whatsapp_radar.TravelBlocks.Pricing.Calls.{questions, price_legs-calls}
use whatsapp_radar.TravelBlocks.Plan.{
  travel_block_horizon, travel_block_listing_end, plan_travel_blocks,
}
use whatsapp_radar.TravelBlocks.Plan.Listed.{IsListed, plan_travel_blocks-IsListed}
use whatsapp_radar.TravelBlocks.Plan.Safe.{IsSparing, unpriced, plan_travel_blocks-IsSparing}
use whatsapp_radar.Tests.Samples.{runtime, delivered, db}
use whatsapp_radar.Tests.Week.{
  words, written_block, at, calendars, calendars_with_block, plan_config, route, listed, whatsapp,
  gmail, group,
}

abbrev clock : String → String
clock id = "2024-03-01"

abbrev ledger : Ledger
ledger = record { db = db; sync_log = [] }

db-IsKeyed : IsKeyed db
db-IsKeyed = (
  ((refl, (refl, (refl, tt))), ((refl, (refl, tt)), ((refl, tt), (tt, tt)))),
  (omega arith, (omega arith, (omega arith, (omega arith, tt)))),
)

ingest_chats-IsCounted_example :
    IsCounted
      (length_of db.messages)
      (length db.chats)
      (ingest_chats clock whatsapp.connector "whatsapp" db)
ingest_chats-IsCounted_example = ingest_chats-IsCounted clock whatsapp.connector "whatsapp" db

ingest_chats-IsKept_example : IsKept db (ingest_chats clock gmail.connector "gmail" db).0
ingest_chats-IsKept_example = ingest_chats-IsKept clock gmail.connector "gmail" db

ingest_chats-IsIdle_example :
    IsIdle
      (ingest_chats clock (steady (group ∷ []) (λ id. delivered "2024-02-01" ∷ [])) "whatsapp" db).0
      no_delta
      (ingest_chats
        (λ id. "2024-03-02")
        (steady (group ∷ []) (λ id. delivered "2024-02-01" ∷ []))
        "whatsapp"
        (ingest_chats clock
          (steady (group ∷ []) (λ id. delivered "2024-02-01" ∷ []))
          "whatsapp"
          db).0)
ingest_chats-IsIdle_example =
    ingest_chats-IsIdle clock (λ id. "2024-03-02") (group ∷ []) (λ id. delivered "2024-02-01" ∷ [])
      "whatsapp" db (tt, tt) db-IsKeyed

sync_sources-log_example :
    (rows : List SyncRow) × ((sync_sources clock "now" "cutoff" "resync" 30
        (gmail ∷ whatsapp ∷ [])
        ledger).0.sync_log
      ≡ ledger.sync_log ++ rows)
    × (map (λ x. x.connector_source) rows ≡ "gmail" ∷ "whatsapp" ∷ [])
    × (map row_report rows
        ≡ map result_report
            (sync_sources clock "now" "cutoff" "resync" 30 (gmail ∷ whatsapp ∷ []) ledger).1)
sync_sources-log_example =
    sync_sources-log clock "now" "cutoff" "resync" 30 (gmail ∷ whatsapp ∷ []) ledger

sync_sources-IsQuiet_example :
    (map
        (λ r. r.source)
        (sync_sources clock "now" "cutoff" "resync" 30 (gmail ∷ whatsapp ∷ []) ledger).1
      ≡ "gmail" ∷ "whatsapp" ∷ [])
    × All IsQuiet (sync_sources clock "now" "cutoff" "resync" 30 (gmail ∷ whatsapp ∷ []) ledger).1
sync_sources-IsQuiet_example =
    sync_sources-IsQuiet clock "now" "cutoff" "resync" 30 (gmail ∷ whatsapp ∷ []) ledger

abbrev asked : List LegRequest
asked = desired_legs words "home street" 60 [] (at 0) (at 2880) calendars

marked : is_travel_block written_block ≡ true
unfolding is_travel_block
marked = refl

desired_legs-Fed_example :
    desired_legs words "home street" 60 [] (at 0) (at 2880) calendars_with_block ≡ asked
desired_legs-Fed_example =
    desired_legs-Fed words "home street" 60 [] (at 0) (at 2880) calendars calendars_with_block
      (person (event (block marked (event done))) (person (event done) nobody))

price_legs-answered_example :
    All
      (λ r.
        is_answered
          (price_legs route (at 300) asked).durations
          (price_legs route (at 300) asked).failures
          (request_key r)
        ≡ true)
      asked
price_legs-answered_example = price_legs-answered route (at 300) asked

price_legs-calls_example :
    (price_legs route (at 300) asked).routes_calls ≡ questions (at 300) [] asked
price_legs-calls_example = price_legs-calls route (at 300) asked

plan_travel_blocks-IsListed_example :
    All
      (IsListed (
        travel_block_listing_end calendars
          (travel_block_horizon plan_config (at 0)).0
          (travel_block_horizon plan_config (at 0)).1))
      (plan_travel_blocks words runtime plan_config route calendars
        (at 300)
        (at 0)
        listed
        none).legs
plan_travel_blocks-IsListed_example =
    plan_travel_blocks-IsListed words runtime plan_config route calendars (at 300) (at 0) listed
      none

plan_travel_blocks-IsSparing_example :
    IsSparing words runtime plan_config route
      (unpriced words runtime plan_config route calendars (at 300) (at 0))
      listed
      (plan_travel_blocks words runtime plan_config route calendars (at 300) (at 0) listed none)
plan_travel_blocks-IsSparing_example =
    plan_travel_blocks-IsSparing words runtime plan_config route calendars (at 300) (at 0) listed
      none
