-- ===== src/TravelBlocks/Reconcile.antt =====
-- src/family/travel_blocks_reconcile.py: `reconcile` and its two helpers.
-- Each listed block is an object of its own, so `is not match` is by position in the list.
pub mod Keys
pub mod Accounting
pub mod Guards
pub mod Refines
use whatsapp_radar.Base.{
  ℕ, String, Bool, true, false, not, ◌&&◌, ◌||◌, Option, none, some, List, [], ◌∷◌, ◌++◌, map, ◌==◌,
  leb, any, find, if◌then◌else◌,
}
use whatsapp_radar.Base.Eq.{text_key}
use whatsapp_radar.Base.Groups.{append_to, popped, without}
use whatsapp_radar.Base.TextOrder.{leb_text}
use whatsapp_radar.Base.Sort.{sort}
use whatsapp_radar.TravelBlocks.Model.{
  Datetime, aware, naive, Runtime, schema_version, PlannedLeg, planned_key, planned_hash,
}
use whatsapp_radar.TravelBlocks.Blocks.{ExistingBlock, block_key, block_start_moment}

pub data DeleteReason : Type 0 where
  replaced orphaned duplicate : DeleteReason

pub data ProtectReason : Type 0 where
  unplanned_leg beyond_horizon start_unknown : ProtectReason

pub record PlannedDelete : Type 0 where
  pub block : ExistingBlock
  pub reason : DeleteReason

pub record ProtectedBlock : Type 0 where
  pub block : ExistingBlock
  pub reason : ProtectReason

pub record Reconciliation : Type 0 where
  pub adds : List PlannedLeg
  pub deletes : List PlannedDelete
  pub keeps : List ExistingBlock
  pub protected : List ProtectedBlock

-- `dict[str, list[ExistingBlock]]`, in the order in which its keys were first written.
abbrev pub Groups : Type 0
Groups = List (String × List ExistingBlock)

-- `key in protected_keys`
abbrev pub is_in : String → List String → Bool
is_in k keys = any (λ j. j == k) keys

-- The loop of `_group_existing`, from the groups and the protected blocks so far.
unfoldable pub group_existing :
    List String → Groups → List ProtectedBlock → List ExistingBlock → Groups × List ProtectedBlock
unfolding append_to
group_existing keys by_key protected [] = (by_key, protected)
group_existing keys by_key protected (b ∷ bs) =
    let skip =
      group_existing keys by_key (protected ++ record { block = b; reason = unplanned_leg } ∷ [])
        bs in
    let grouped = group_existing keys (append_to (block_key b) b by_key) protected bs in
    if is_in (block_key b) keys then skip else grouped

-- The end of `_protect_reason_beyond_plan`, at the moment that the block's start was read to be.
abbrev pub protect_reason_at : ℕ → Option Datetime → Option ProtectReason
protect_reason_at plan_end none = some start_unknown
protect_reason_at plan_end (some (naive local)) = some start_unknown
protect_reason_at plan_end (some (aware instant offset)) =
    if leb plan_end instant then some beyond_horizon else none

-- The two branches of the loop of `_sweep_orphans`: no reason to spare the block, or one.
abbrev pub spare :
    ExistingBlock
    → List PlannedDelete × List ProtectedBlock
    → Option ProtectReason
    → List PlannedDelete × List ProtectedBlock
spare b out none = (out.0 ++ record { block = b; reason = orphaned } ∷ [], out.1)
spare b out (some spared) = (out.0, out.1 ++ record { block = b; reason = spared } ∷ [])

module _ (rt : Runtime) where
  -- Whether a written block is what the leg wants: its schema and its hash are current.
  abbrev pub is_current : PlannedLeg → ExistingBlock → Bool
  is_current l b = b.schema_version == schema_version && b.stored_hash == planned_hash rt l

  unfoldable pub protect_reason_beyond_plan : ExistingBlock → ℕ → Option ProtectReason
  protect_reason_beyond_plan b plan_end = protect_reason_at plan_end (block_start_moment rt b)

  -- One block of the loop of `_sweep_orphans`.
  abbrev pub sweep_one :
      ℕ
      → ExistingBlock
      → List PlannedDelete × List ProtectedBlock
      → List PlannedDelete × List ProtectedBlock
  sweep_one plan_end b out = spare b out (protect_reason_beyond_plan b plan_end)

  unfoldable pub sweep_group :
      ℕ
      → List ExistingBlock
      → List PlannedDelete × List ProtectedBlock
      → List PlannedDelete × List ProtectedBlock
  sweep_group plan_end [] out = out
  sweep_group plan_end (b ∷ bs) out = sweep_group plan_end bs (sweep_one plan_end b out)

  unfoldable pub sweep_orphans :
      ℕ
      → Groups
      → List PlannedDelete × List ProtectedBlock
      → List PlannedDelete × List ProtectedBlock
  unfolding sweep_group
  sweep_orphans plan_end [] out = out
  sweep_orphans plan_end ((k, bs) ∷ g) out = sweep_orphans plan_end g (sweep_group plan_end bs out)

-- `PlannedDelete(block, reason) for block in …`
abbrev pub deletes_of : DeleteReason → List ExistingBlock → List PlannedDelete
deletes_of reason = map (λ b. record { block = b; reason = reason })

-- The candidates but the first that satisfies the test: `block is not match`.
unfoldable pub but_first : (ExistingBlock → Bool) → List ExistingBlock → List ExistingBlock
but_first p [] = []
but_first p (b ∷ bs) = let rest = but_first p bs in if p b then bs else b ∷ rest

-- The variables of the loop over `desired`.
pub record Diff : Type 0 where
  pub by_key : Groups
  pub adds : List PlannedLeg
  pub deletes : List PlannedDelete
  pub keeps : List ExistingBlock

module _ (rt : Runtime) where
  -- The two ways in which a leg meets its candidates.
  unfoldable pub settle : PlannedLeg → List ExistingBlock → Option ExistingBlock → Diff → Diff
  unfolding but_first
  settle l candidates none d = record d {
    adds = d.adds ++ l ∷ [];
    deletes = d.deletes ++ deletes_of replaced candidates;
  }
  settle l candidates (some match) d = record d {
    keeps = d.keeps ++ match ∷ [];
    deletes = d.deletes ++ deletes_of duplicate (but_first (is_current rt l) candidates);
  }

  -- One round of the loop over `desired`.
  unfoldable pub diff_leg : List String → PlannedLeg → Diff → Diff
  unfolding settle popped without
  diff_leg keys l d =
      let candidates = popped (planned_key l) d.by_key in
      if is_in (planned_key l) keys
      then d
      else settle l candidates (find (is_current rt l) candidates)
          (record d { by_key = without (planned_key l) d.by_key })

  unfoldable pub diff_desired : List String → List PlannedLeg → Diff → Diff
  unfolding diff_leg
  diff_desired keys [] d = d
  diff_desired keys (l ∷ ls) d = diff_desired keys ls (diff_leg keys l d)

-- The sort key `(calendar_id, start, event_id)`, compared as Python compares tuples of texts.
unfoldable pub leb_block : ExistingBlock → ExistingBlock → Bool
leb_block a b =
    if not (a.calendar_id == b.calendar_id)
    then leb_text a.calendar_id b.calendar_id
    else if not (a.start == b.start)
    then leb_text a.start b.start
    else leb_text a.event_id b.event_id

abbrev pub leb_delete : PlannedDelete → PlannedDelete → Bool
leb_delete a b = leb_block a.block b.block

abbrev pub leb_protected : ProtectedBlock → ProtectedBlock → Bool
leb_protected a b = leb_block a.block b.block

module _ (rt : Runtime) where
  unfoldable pub reconcile :
      List PlannedLeg → List ExistingBlock → (plan_end : ℕ) → List String → Reconciliation
  unfolding group_existing diff_desired sweep_orphans
  reconcile desired existing plan_end keys =
      let (by_key, unplanned) = group_existing keys [] [] existing in
      let d =
        diff_desired rt keys desired
          (record { by_key = by_key; adds = []; deletes = []; keeps = [] }) in
      let (deletes, protected) = sweep_orphans rt plan_end d.by_key (d.deletes, unplanned) in
      record {
        adds = d.adds;
        deletes = sort leb_delete deletes;
        keeps = d.keeps;
        protected = sort leb_protected protected;
      }
