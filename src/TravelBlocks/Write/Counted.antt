-- ===== src/TravelBlocks/Write/Counted.antt =====
-- src/family/travel_blocks_write.py: every operation of a plan is accounted for.
use whatsapp_radar.Base.{
  ℕ, suc, ◌+◌, String, ◌≡◌, refl, inl, inr, Option, none, some, List, [], ◌∷◌, ◌++◌, arith, any,
  length, Bool-cases, ◌==◌,
}
use whatsapp_radar.TravelBlocks.Model.{Runtime, PlannedLeg, planned_key}
use whatsapp_radar.TravelBlocks.Reconcile.{PlannedDelete}
use whatsapp_radar.TravelBlocks.Plan.{TravelBlockPlan}
use whatsapp_radar.TravelBlocks.Write.{
  Miss, ApplyFailure, Outside, Capabilities, capability_skip, Apply, passes_guard, after_delete,
  after_backup, delete_gated, apply_delete, apply_deletes, after_insert, insert_gated, apply_insert,
  apply_inserts, untouched, apply_travel_blocks, called,
}

-- After `n` operations: each is counted once, and the skipped ones have a failure each.
abbrev pub IsAccounted : ℕ → Apply → Type 0
IsAccounted n a = (a.deleted + a.inserted + a.skipped ≡ n) × (length a.failures ≡ a.skipped)

length-append :
    (fs : List ApplyFailure) (f : ApplyFailure) → length (fs ++ f ∷ []) ≡ suc (length fs)
length-append [] f = refl
length-append (g ∷ fs) f = omega (arith, length-append fs f)

module _ (rt : Runtime) (out : Outside) (m : Capabilities) where
  after_delete-IsAccounted :
      (p : PlannedDelete) (o : Option String) (a : Apply) (n : ℕ)
      → IsAccounted n a
      → IsAccounted (suc n) (after_delete rt out m p o a)
  after_delete-IsAccounted p none a n h = (omega (arith, h.0), h.1)
  after_delete-IsAccounted p (some text) a n h =
      (omega (arith, h.0), omega (arith, h.1, length-append a.failures _))

  after_backup-IsAccounted :
      (p : PlannedDelete) (o : Option String) (a : Apply) (n : ℕ)
      → IsAccounted n a
      → IsAccounted (suc n) (after_backup rt out m p o a)
  after_backup-IsAccounted p none a n h =
      after_delete-IsAccounted p _ (called rt out m p.block a) n h
  after_backup-IsAccounted p (some text) a n h =
      (omega (arith, h.0), omega (arith, h.1, length-append a.failures _))

  delete_gated-IsAccounted :
      (p : PlannedDelete) (o : Option Miss) (a : Apply) (n : ℕ)
      → IsAccounted n a
      → IsAccounted (suc n) (delete_gated rt out m p o a)
  delete_gated-IsAccounted p (some gate) a n h =
      (omega (arith, h.0), omega (arith, h.1, length-append a.failures _))
  delete_gated-IsAccounted p none a n h = elim (Bool-cases (passes_guard rt out m p.block)) [
    | inl t ↦ rw t (after_backup-IsAccounted p _ a n h)
    | inr t ↦ rw t (omega (arith, h.0), omega (arith, h.1, length-append a.failures _))
  ]

  apply_deletes-IsAccounted :
      (ps : List PlannedDelete) (a : Apply) (n : ℕ)
      → IsAccounted n a
      → IsAccounted (n + length ps) (apply_deletes rt out m ps a)
  unfolding apply_deletes apply_delete
  apply_deletes-IsAccounted [] a n h = (omega (arith, h.0), h.1)
  apply_deletes-IsAccounted (p ∷ ps) a n h =
      let one = delete_gated-IsAccounted p (capability_skip m p.block.calendar_id) a n h in
      let rest = apply_deletes-IsAccounted ps (apply_delete rt out m p a) (suc n) one in
      (omega (arith, rest.0), rest.1)

  after_insert-IsAccounted :
      (l : PlannedLeg) (o : Option String) (a : Apply) (n : ℕ)
      → IsAccounted n a
      → IsAccounted (suc n) (after_insert rt out m l o a)
  after_insert-IsAccounted l none a n h = (omega (arith, h.0), h.1)
  after_insert-IsAccounted l (some text) a n h =
      (omega (arith, h.0), omega (arith, h.1, length-append a.failures _))

  insert_gated-IsAccounted :
      (l : PlannedLeg) (o : Option Miss) (a : Apply) (n : ℕ)
      → IsAccounted n a
      → IsAccounted (suc n) (insert_gated rt out m l o a)
  insert_gated-IsAccounted l (some gate) a n h =
      (omega (arith, h.0), omega (arith, h.1, length-append a.failures _))
  insert_gated-IsAccounted l none a n h =
      elim (Bool-cases (any (λ k. k == planned_key l) a.blocked_keys)) [
        | inl t ↦ rw t (omega (arith, h.0), omega (arith, h.1, length-append a.failures _))
        | inr t ↦ rw t (after_insert-IsAccounted l _ a n h)
      ]

  apply_inserts-IsAccounted :
      (ls : List PlannedLeg) (a : Apply) (n : ℕ)
      → IsAccounted n a
      → IsAccounted (n + length ls) (apply_inserts rt out m ls a)
  unfolding apply_inserts apply_insert
  apply_inserts-IsAccounted [] a n h = (omega (arith, h.0), h.1)
  apply_inserts-IsAccounted (l ∷ ls) a n h =
      let one = insert_gated-IsAccounted l (capability_skip m l.calendar_id) a n h in
      let rest = apply_inserts-IsAccounted ls (apply_insert rt out m l a) (suc n) one in
      (omega (arith, rest.0), rest.1)

  -- Whatever the disk and the calendars answer, each delete and each add of a plan is counted once, as
  -- deleted, inserted or skipped, and there is a failure for each that was skipped and for no other.
  pub apply_travel_blocks-IsAccounted :
      (p : TravelBlockPlan)
      → IsAccounted (length p.deletes + length p.adds) (apply_travel_blocks rt out m p)
  unfolding apply_travel_blocks
  apply_travel_blocks-IsAccounted p =
      let gone = apply_deletes-IsAccounted p.deletes (untouched rt out m) 0 (omega arith, refl) in
      let all =
        apply_inserts-IsAccounted p.adds (apply_deletes rt out m p.deletes (untouched rt out m))
          (0 + length p.deletes) gone in
      (omega (arith, all.0), all.1)
