-- ===== src/Tests/Blocks.antt =====
-- The travel blocks of a day, reconciled.
use whatsapp_radar.Base.{
  ltb, ◌&&◌, ◌||◌, any, false, ◌+◌, ◌≡◌, refl, true, some, [], ◌∷◌, ◌==◌, length, All, count_where,
}
use whatsapp_radar.Base.Sort.{sort}
use whatsapp_radar.Base.Text.{take_text, join, decimal}
use whatsapp_radar.Base.TextOrder.{leb_text}
use whatsapp_radar.TravelBlocks.Model.{leg_key, content_hash}
use whatsapp_radar.TravelBlocks.Blocks.{block_start_moment, parse_existing_block, carries_marker}
use whatsapp_radar.TravelBlocks.Blocks.RoundTrip.{inserted, read_back, parse-build}
use whatsapp_radar.TravelBlocks.Reconcile.{protect_reason_beyond_plan, leb_block, reconcile}
use whatsapp_radar.TravelBlocks.Reconcile.Accounting.{in_deletes, in_protected, reconcile_accounts}
use whatsapp_radar.TravelBlocks.Reconcile.Guards.{wanted, IsGuarded, IsKeepable, reconcile_guards}
use whatsapp_radar.TravelBlocks.Reconcile.Refines.Calendar.{
  of_key, blocks_after, is_spared, reconcile_refines,
}
use whatsapp_radar.Tests.Samples.{runtime, outbound, blocks, unplanned}

-- One block is kept, its double and the orphan are deleted, and the two others are spared.
reconcile_test :
    (length (reconcile runtime (outbound ∷ []) blocks 150 unplanned).keeps ≡ 1)
    × (length (reconcile runtime (outbound ∷ []) blocks 150 unplanned).deletes ≡ 2)
    × (length (reconcile runtime (outbound ∷ []) blocks 150 unplanned).protected ≡ 2)
unfolding reconcile leg_key content_hash take_text join decimal sort protect_reason_beyond_plan
    block_start_moment leb_block leb_text
reconcile_test = (refl, refl, refl)

parse-build_example :
    (parse_existing_block runtime (inserted runtime outbound "Travel" "b9") "family"
      ≡ some (read_back runtime outbound "Travel" "b9"))
    × (carries_marker runtime (inserted runtime outbound "Travel" "b9") ≡ true)
parse-build_example = parse-build runtime outbound "Travel" "b9" refl

reconcile_accounts_example :
    in_deletes
        (λ b. b.leg == "outbound")
        (reconcile runtime (outbound ∷ []) blocks 150 unplanned).deletes
      + count_where
          (λ b. b.leg == "outbound")
          (reconcile runtime (outbound ∷ []) blocks 150 unplanned).keeps
      + in_protected
          (λ b. b.leg == "outbound")
          (reconcile runtime (outbound ∷ []) blocks 150 unplanned).protected
    ≡ 4
reconcile_accounts_example =
    reconcile_accounts runtime (outbound ∷ []) blocks 150 unplanned (λ b. b.leg == "outbound")

reconcile_guards_example :
    All
      (IsGuarded runtime
        (outbound ∷ [])
        150
        unplanned
        (reconcile runtime (outbound ∷ []) blocks 150 unplanned).keeps)
      (reconcile runtime (outbound ∷ []) blocks 150 unplanned).deletes
    × All
        (IsKeepable runtime (outbound ∷ []) 150 unplanned)
        (reconcile runtime (outbound ∷ []) blocks 150 unplanned).keeps
reconcile_guards_example = reconcile_guards runtime (outbound ∷ []) 150 unplanned blocks

-- The orphan of a leg that is gone leaves the calendar.
reconcile_refines_example :
    ltb 0 (
      blocks_after "family::gone::outbound" blocks
        (reconcile runtime (outbound ∷ []) blocks 150 unplanned))
    ≡ wanted (outbound ∷ []) "family::gone::outbound"
      || any (λ b. of_key "family::gone::outbound" b && is_spared runtime 150 b) blocks
reconcile_refines_example =
    reconcile_refines runtime (outbound ∷ []) 150 unplanned "family::gone::outbound" blocks refl

-- That is no key of a block, while the dentist's is one.
reconcile_keys_test :
    (ltb 0 (
        blocks_after "family::gone::outbound" blocks
          (reconcile runtime (outbound ∷ []) blocks 150 unplanned))
      ≡ false)
    × (ltb 0 (
          blocks_after "family::dentist::outbound" blocks
            (reconcile runtime (outbound ∷ []) blocks 150 unplanned))
        ≡ true)
unfolding reconcile leg_key content_hash take_text join decimal sort protect_reason_beyond_plan
    block_start_moment leb_block leb_text
reconcile_keys_test = (refl, refl)
