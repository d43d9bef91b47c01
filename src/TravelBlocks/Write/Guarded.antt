-- ===== src/TravelBlocks/Write/Guarded.antt =====
-- src/family/travel_blocks_write.py: what reaches the calendars, and in which order.
use whatsapp_radar.Base.{
  String, ◌≡◌, refl, inl, inr, true, Option, none, some, List, [], ◌∷◌, ◌++◌, any, Bool-cases, ◌==◌,
}
use whatsapp_radar.TravelBlocks.Model.{Runtime, PlannedLeg, planned_key}
use whatsapp_radar.TravelBlocks.Blocks.{ExistingBlock}
use whatsapp_radar.TravelBlocks.Reconcile.{PlannedDelete}
use whatsapp_radar.TravelBlocks.Plan.{TravelBlockPlan}
use whatsapp_radar.TravelBlocks.Write.{
  Miss, Effect, backed_up, delete_event, insert_event, Outside, Capability, writable, not_writable,
  unknown, Capabilities, capability_of, skip_of, capability_skip, Apply, passes_guard, after_delete,
  after_backup, delete_gated, apply_delete, apply_deletes, after_insert, insert_gated, apply_insert,
  apply_inserts, untouched, apply_travel_blocks, called,
}

module _ (rt : Runtime) (out : Outside) (m : Capabilities) where
  -- The histories that the writer may leave: a delete of a block comes right after the backup of that
  -- same block, which passes the guard; deletes and inserts are on calendars that are writable.
  pub data IsGuarded : List Effect → Type 0 where
    idle : IsGuarded []
    removed :
        {es : List Effect} (b : ExistingBlock)
        → passes_guard rt out m b ≡ true
        → capability_of b.calendar_id m ≡ writable
        → IsGuarded es
        → IsGuarded (es ++ backed_up b ∷ delete_event b ∷ [])
    written :
        {es : List Effect} (l : PlannedLeg)
        → capability_of l.calendar_id m ≡ writable
        → IsGuarded es
        → IsGuarded (es ++ insert_event l ∷ [])

  skip_of-none : (c : Capability) → skip_of c ≡ none → c ≡ writable
  skip_of-none writable e = refl
  skip_of-none not_writable e = cc
  skip_of-none unknown e = cc

  after_delete-effects :
      (p : PlannedDelete) (o : Option String) (a : Apply)
      → IsGuarded a.effects
      → IsGuarded (after_delete rt out m p o a).effects
  after_delete-effects p none a h = h
  after_delete-effects p (some text) a h = h

  after_backup-IsGuarded :
      (p : PlannedDelete) (o : Option String) (a : Apply)
      → passes_guard rt out m p.block ≡ true
      → capability_of p.block.calendar_id m ≡ writable
      → IsGuarded a.effects
      → IsGuarded (after_backup rt out m p o a).effects
  after_backup-IsGuarded p (some text) a g c h = h
  after_backup-IsGuarded p none a g c h =
      after_delete-effects p _ (called rt out m p.block a) (removed p.block g c h)

  delete_gated-IsGuarded :
      (p : PlannedDelete) (o : Option Miss) (a : Apply)
      → capability_skip m p.block.calendar_id ≡ o
      → IsGuarded a.effects
      → IsGuarded (delete_gated rt out m p o a).effects
  unfolding capability_skip
  delete_gated-IsGuarded p (some gate) a e h = h
  delete_gated-IsGuarded p none a e h = elim (Bool-cases (passes_guard rt out m p.block)) [
    | inl t ↦
        rw t
          (after_backup-IsGuarded p _ a t (skip_of-none (capability_of p.block.calendar_id m) e) h)
    | inr t ↦ rw t h
  ]

  apply_deletes-IsGuarded :
      (ps : List PlannedDelete) (a : Apply)
      → IsGuarded a.effects
      → IsGuarded (apply_deletes rt out m ps a).effects
  unfolding apply_deletes apply_delete
  apply_deletes-IsGuarded [] a h = h
  apply_deletes-IsGuarded (p ∷ ps) a h =
      apply_deletes-IsGuarded ps (apply_delete rt out m p a) (delete_gated-IsGuarded p _ a refl h)

  after_insert-IsGuarded :
      (l : PlannedLeg) (o : Option String) (a : Apply)
      → capability_of l.calendar_id m ≡ writable
      → IsGuarded a.effects
      → IsGuarded (after_insert rt out m l o a).effects
  after_insert-IsGuarded l none a c h = written l c h
  after_insert-IsGuarded l (some text) a c h = written l c h

  insert_gated-IsGuarded :
      (l : PlannedLeg) (o : Option Miss) (a : Apply)
      → capability_skip m l.calendar_id ≡ o
      → IsGuarded a.effects
      → IsGuarded (insert_gated rt out m l o a).effects
  unfolding capability_skip
  insert_gated-IsGuarded l (some gate) a e h = h
  insert_gated-IsGuarded l none a e h =
      elim (Bool-cases (any (λ k. k == planned_key l) a.blocked_keys)) [
        | inl t ↦ rw t h
        | inr t ↦
            rw t (after_insert-IsGuarded l _ a (skip_of-none (capability_of l.calendar_id m) e) h)
      ]

  apply_inserts-IsGuarded :
      (ls : List PlannedLeg) (a : Apply)
      → IsGuarded a.effects
      → IsGuarded (apply_inserts rt out m ls a).effects
  unfolding apply_inserts apply_insert
  apply_inserts-IsGuarded [] a h = h
  apply_inserts-IsGuarded (l ∷ ls) a h =
      apply_inserts-IsGuarded ls (apply_insert rt out m l a) (insert_gated-IsGuarded l _ a refl h)

  -- Whatever the plan, the disk and the calendars: no delete reaches a calendar but of a block whose
  -- resource carries the marker and is addressed by its own ids, right after the backup of that block
  -- was written; and neither a delete nor an insert reaches a calendar that is not known as writable.
  pub apply_travel_blocks-IsGuarded :
      (p : TravelBlockPlan) → IsGuarded (apply_travel_blocks rt out m p).effects
  unfolding apply_travel_blocks
  apply_travel_blocks-IsGuarded p =
      apply_inserts-IsGuarded p.adds (apply_deletes rt out m p.deletes (untouched rt out m))
        (apply_deletes-IsGuarded p.deletes (untouched rt out m) idle)
