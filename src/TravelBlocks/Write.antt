-- ===== src/TravelBlocks/Write.antt =====
-- src/family/travel_blocks_write.py: the guarded writer, and what a plan does to the calendars.
pub mod Counted
pub mod Guarded
pub mod Stale
use whatsapp_radar.Base.{
  ℕ, suc, ◌+◌, String, ◌≡◌, Bool, true, false, not, ◌&&◌, ◌||◌, Option, none, some, List, [], ◌∷◌,
  ◌++◌, ◌==◌, any, length, find, if◌then◌else◌,
}
use whatsapp_radar.Base.Json.{get}
use whatsapp_radar.TravelBlocks.Model.{Runtime, PlannedLeg, planned_key}
use whatsapp_radar.TravelBlocks.Blocks.{ExistingBlock, block_key, carries_marker, text_or_empty}
use whatsapp_radar.TravelBlocks.Reconcile.{PlannedDelete}
use whatsapp_radar.TravelBlocks.Plan.{
  TravelBlockPlan, PlanStatus, ok, disabled, no_home_address, no_routes_api_key,
}

pub data Capability : Type 0 where
  writable not_writable unknown : Capability

unfoldable pub classify_access_role : Option String → Capability
classify_access_role none = unknown
classify_access_role (some role) =
    if role == "owner" || role == "writer"
    then writable
    else if role == "reader" || role == "freeBusyReader"
    then not_writable
    else unknown

-- Why an operation of the plan was not carried out.
pub data Miss : Type 0 where
  calendar_not_writable write_capability_unknown stale_block_not_removed : Miss
  insert_failed delete_failed backup_failed marker_guard_refused : Miss

-- `_add_failure` and `_delete_failure`, with the detail.
pub data ApplyFailure : Type 0 where
  add_failure : PlannedLeg → Miss → String → ApplyFailure
  delete_failure : PlannedDelete → Miss → String → ApplyFailure

-- What reaches the disk and the calendars: a backup, and the two calls of the client.
pub data Effect : Type 0 where
  backed_up : ExistingBlock → Effect
  delete_event : ExistingBlock → Effect
  insert_event : PlannedLeg → Effect

-- What the disk and the client answer, after the effects so far: the text of an error, or none. The
-- text of a refusal of the guard is `refusal`.
pub record Outside : Type 0 where
  pub backup : List Effect → ExistingBlock → Option String
  pub delete : List Effect → ExistingBlock → Option String
  pub insert : List Effect → PlannedLeg → Option String
  pub refusal : ExistingBlock → String

abbrev pub Capabilities : Type 0
Capabilities = List (String × Capability)

-- `capability.get(calendar_id, WRITE_CAPABILITY_UNKNOWN)`
abbrev pub capability_of : String → Capabilities → Capability
capability_of c m = elim (find (λ e. e.0 == c) m) [ none ↦ unknown | some e ↦ e.1 ]

abbrev pub skip_of : Capability → Option Miss
skip_of writable = none
skip_of not_writable = some calendar_not_writable
skip_of unknown = some write_capability_unknown

unfoldable pub capability_skip : Capabilities → String → Option Miss
capability_skip m c = skip_of (capability_of c m)

-- The variables of the two loops: the counts, the keys that wait, the failures, and the effects.
pub record Apply : Type 0 where
  pub deleted : ℕ
  pub inserted : ℕ
  pub skipped : ℕ
  pub blocked_keys : List String
  pub failures : List ApplyFailure
  pub effects : List Effect

abbrev pub miss_delete : PlannedDelete → Miss → String → Apply → Apply
miss_delete p reason detail a = record a {
  skipped = suc a.skipped;
  blocked_keys = block_key p.block ∷ a.blocked_keys;
  failures = a.failures ++ delete_failure p reason detail ∷ [];
}

abbrev pub miss_add : PlannedLeg → Miss → String → Apply → Apply
miss_add l reason detail a = record a {
  skipped = suc a.skipped;
  failures = a.failures ++ add_failure l reason detail ∷ [];
}

module _ (rt : Runtime) (out : Outside) (m : Capabilities) where
  -- `_require_marker`: whether it returns.
  unfoldable pub passes_guard : ExistingBlock → Bool
  passes_guard b =
      let calendar = text_or_empty rt (get "calendarId" b.resource) in
      carries_marker rt b.resource
      && ((text_or_empty rt (get "id" b.resource) == b.event_id)
          && (calendar == "" || calendar == b.calendar_id))

  -- The end of `delete_block`, by what the client answers.
  abbrev pub after_delete : PlannedDelete → Option String → Apply → Apply
  after_delete p none a = record a { deleted = suc a.deleted }
  after_delete p (some text) a = miss_delete p delete_failed text a

  abbrev pub called : ExistingBlock → Apply → Apply
  called b a = record a { effects = a.effects ++ backed_up b ∷ delete_event b ∷ [] }

  -- `delete_block` from the backup on: without one, there is no call.
  abbrev pub after_backup : PlannedDelete → Option String → Apply → Apply
  after_backup p (some text) a = miss_delete p backup_failed text a
  after_backup p none a =
      after_delete p (out.delete (a.effects ++ backed_up p.block ∷ []) p.block) (called p.block a)

  abbrev pub delete_gated : PlannedDelete → Option Miss → Apply → Apply
  delete_gated p (some gate) a = miss_delete p gate "" a
  delete_gated p none a =
      if passes_guard p.block
      then after_backup p (out.backup a.effects p.block) a
      else miss_delete p marker_guard_refused (out.refusal p.block) a

  -- The body of the loop over the deletes.
  unfoldable pub apply_delete : PlannedDelete → Apply → Apply
  apply_delete p a = delete_gated p (capability_skip m p.block.calendar_id) a

  unfoldable pub apply_deletes : List PlannedDelete → Apply → Apply
  apply_deletes [] a = a
  apply_deletes (p ∷ ps) a = apply_deletes ps (apply_delete p a)

  abbrev pub after_insert : PlannedLeg → Option String → Apply → Apply
  after_insert l none a = record a {
    inserted = suc a.inserted;
    effects = a.effects ++ insert_event l ∷ [];
  }
  after_insert l (some text) a =
      miss_add l insert_failed text (record a { effects = a.effects ++ insert_event l ∷ [] })

  abbrev pub insert_gated : PlannedLeg → Option Miss → Apply → Apply
  insert_gated l (some gate) a = miss_add l gate "" a
  insert_gated l none a =
      if any (λ k. k == planned_key l) a.blocked_keys
      then miss_add l stale_block_not_removed "" a
      else after_insert l (out.insert a.effects l) a

  -- The body of the loop over the adds.
  unfoldable pub apply_insert : PlannedLeg → Apply → Apply
  apply_insert l a = insert_gated l (capability_skip m l.calendar_id) a

  unfoldable pub apply_inserts : List PlannedLeg → Apply → Apply
  apply_inserts [] a = a
  apply_inserts (l ∷ ls) a = apply_inserts ls (apply_insert l a)

  abbrev pub untouched : Apply
  untouched = record {
    deleted = 0;
    inserted = 0;
    skipped = 0;
    blocked_keys = [];
    failures = [];
    effects = [];
  }

  unfoldable pub apply_travel_blocks : TravelBlockPlan → Apply
  apply_travel_blocks p = apply_inserts p.adds (apply_deletes p.deletes untouched)

pub data ApplyStatus : Type 0 where
  applied dry_run no_write_token not_planned : ApplyStatus

-- `ApplyResult`, and the effects.
pub record ApplyResult : Type 0 where
  pub status : ApplyStatus
  pub inserted : ℕ
  pub deleted : ℕ
  pub kept : ℕ
  pub skipped : ℕ
  pub failures : List ApplyFailure
  pub effects : List Effect

abbrev pub nothing_applied : ApplyStatus → ℕ → ℕ → ApplyResult
nothing_applied status kept skipped = record {
  status = status;
  inserted = 0;
  deleted = 0;
  kept = kept;
  skipped = skipped;
  failures = [];
  effects = [];
}

-- `plan.status != STATUS_OK`
abbrev pub is_planned : PlanStatus → Bool
is_planned ok = true
is_planned disabled = false
is_planned no_home_address = false
is_planned no_routes_api_key = false

abbrev pub applied_result : TravelBlockPlan → Apply → ApplyResult
applied_result p a = record {
  status = applied;
  inserted = a.inserted;
  deleted = a.deleted;
  kept = length p.keeps;
  skipped = a.skipped;
  failures = a.failures;
  effects = a.effects;
}

-- `_apply`; `token` tells whether a write client can be built.
unfoldable pub apply :
    Runtime → Outside → Capabilities → (token dry : Bool) → TravelBlockPlan → ApplyResult
apply rt out m token dry p =
    let planned = length p.adds + length p.deletes in
    if not (is_planned p.status)
    then nothing_applied not_planned 0 0
    else if dry
    then nothing_applied dry_run (length p.keeps) planned
    else if not token
    then nothing_applied no_write_token (length p.keeps) planned
    else applied_result p (apply_travel_blocks rt out m p)
