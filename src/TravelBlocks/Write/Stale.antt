-- ===== src/TravelBlocks/Write/Stale.antt =====
-- src/family/travel_blocks_write.py: no block is added beside the stale one that it replaces.
use whatsapp_radar.Base.{
  String, ◌≡◌, refl, ◌∙◌, inl, inr, Bool, true, false, ◌||◌, Option, none, some, List, [], ◌∷◌,
  ◌++◌, arith, any, All, All-append, All-map, Bool-cases, ◌==◌,
}
use whatsapp_radar.TravelBlocks.Model.{Runtime, PlannedLeg, planned_key}
use whatsapp_radar.TravelBlocks.Blocks.{block_key}
use whatsapp_radar.TravelBlocks.Reconcile.{PlannedDelete}
use whatsapp_radar.TravelBlocks.Plan.{TravelBlockPlan}
use whatsapp_radar.TravelBlocks.Write.{
  Miss, ApplyFailure, add_failure, delete_failure, Effect, backed_up, delete_event, insert_event,
  Outside, Capabilities, capability_skip, Apply, passes_guard, after_delete, after_backup,
  delete_gated, apply_delete, apply_deletes, after_insert, insert_gated, apply_insert,
  apply_inserts, untouched, apply_travel_blocks, called,
}

-- A planned delete of the key was not carried out.
abbrev pub is_left : String → ApplyFailure → Bool
is_left k (add_failure l reason detail) = false
is_left k (delete_failure p reason detail) = block_key p.block == k

abbrev pub is_blocked : String → List String → Bool
is_blocked k keys = any (λ j. j == k) keys

abbrev is_insert : Effect → Bool
is_insert (backed_up b) = false
is_insert (delete_event b) = false
is_insert (insert_event l) = true

-- An insert is of a key whose deletes were all carried out.
abbrev pub IsFresh : List ApplyFailure → Effect → Type 0
IsFresh failures (backed_up b) = Unit
IsFresh failures (delete_event b) = Unit
IsFresh failures (insert_event l) = any (is_left (planned_key l)) failures ≡ false

abbrev IsReady : List String → Effect → Type 0
IsReady keys (backed_up b) = Unit
IsReady keys (delete_event b) = Unit
IsReady keys (insert_event l) = is_blocked (planned_key l) keys ≡ false

-- The keys that wait are those of the deletes left.
abbrev IsNoted : Apply → Type 0
IsNoted a = (k : String) → any (is_left k) a.failures ≡ is_blocked k a.blocked_keys

any-append :
    (k : String) (fs : List ApplyFailure) (f : ApplyFailure)
    → any (is_left k) (fs ++ f ∷ []) ≡ is_left k f || any (is_left k) fs
any-append k [] f = refl
any-append k (g ∷ fs) f = ground (arith, any-append k fs f)

IsReady-start : (keys : List String) (e : Effect) → is_insert e ≡ false → IsReady keys e
IsReady-start keys (backed_up b) h = tt
IsReady-start keys (delete_event b) h = tt
IsReady-start keys (insert_event l) h = absurd (ground (arith, h))

IsFresh-ready :
    (a : Apply) (e : Effect) → IsNoted a → IsReady a.blocked_keys e → IsFresh a.failures e
IsFresh-ready a (backed_up b) v h = tt
IsFresh-ready a (delete_event b) v h = tt
IsFresh-ready a (insert_event l) v h = v (planned_key l) ∙ h

module _ (rt : Runtime) (out : Outside) (m : Capabilities) where
  abbrev IsDeleting : Apply → Type 0
  IsDeleting a = IsNoted a × All (λ e. is_insert e ≡ false) a.effects

  after_delete-IsDeleting :
      (p : PlannedDelete) (o : Option String) (a : Apply)
      → IsDeleting a
      → IsDeleting (after_delete rt out m p o a)
  after_delete-IsDeleting p none a h = h
  after_delete-IsDeleting p (some text) a h =
      (λ k. any-append k a.failures _ ∙ rw (h.0 k) refl, h.1)

  after_backup-IsDeleting :
      (p : PlannedDelete) (o : Option String) (a : Apply)
      → IsDeleting a
      → IsDeleting (after_backup rt out m p o a)
  after_backup-IsDeleting p (some text) a h =
      (λ k. any-append k a.failures _ ∙ rw (h.0 k) refl, h.1)
  after_backup-IsDeleting p none a h =
      after_delete-IsDeleting p _ (called rt out m p.block a)
        (h.0, All-append _ a.effects _ h.1 (refl, (refl, tt)))

  delete_gated-IsDeleting :
      (p : PlannedDelete) (o : Option Miss) (a : Apply)
      → IsDeleting a
      → IsDeleting (delete_gated rt out m p o a)
  delete_gated-IsDeleting p (some gate) a h =
      (λ k. any-append k a.failures _ ∙ rw (h.0 k) refl, h.1)
  delete_gated-IsDeleting p none a h = elim (Bool-cases (passes_guard rt out m p.block)) [
    | inl t ↦ rw t (after_backup-IsDeleting p _ a h)
    | inr t ↦ rw t (λ k. any-append k a.failures _ ∙ rw (h.0 k) refl, h.1)
  ]

  apply_deletes-IsDeleting :
      (ps : List PlannedDelete) (a : Apply)
      → IsDeleting a
      → IsDeleting (apply_deletes rt out m ps a)
  unfolding apply_deletes apply_delete
  apply_deletes-IsDeleting [] a h = h
  apply_deletes-IsDeleting (p ∷ ps) a h =
      apply_deletes-IsDeleting ps (apply_delete rt out m p a)
        (delete_gated-IsDeleting p (capability_skip m p.block.calendar_id) a h)

  abbrev IsInserting : Apply → Type 0
  IsInserting a = IsNoted a × All (IsReady a.blocked_keys) a.effects

  after_insert-IsInserting :
      (l : PlannedLeg) (o : Option String) (a : Apply)
      → is_blocked (planned_key l) a.blocked_keys ≡ false
      → IsInserting a
      → IsInserting (after_insert rt out m l o a)
  after_insert-IsInserting l none a b h =
      (h.0, All-append (IsReady a.blocked_keys) a.effects _ h.1 (b, tt))
  after_insert-IsInserting l (some text) a b h = (
    λ k. any-append k a.failures _ ∙ h.0 k,
    All-append (IsReady a.blocked_keys) a.effects _ h.1 (b, tt),
  )

  insert_gated-IsInserting :
      (l : PlannedLeg) (o : Option Miss) (a : Apply)
      → IsInserting a
      → IsInserting (insert_gated rt out m l o a)
  insert_gated-IsInserting l (some gate) a h = (λ k. any-append k a.failures _ ∙ h.0 k, h.1)
  insert_gated-IsInserting l none a h =
      elim (Bool-cases (is_blocked (planned_key l) a.blocked_keys)) [
        | inl t ↦ rw t (λ k. any-append k a.failures _ ∙ h.0 k, h.1)
        | inr t ↦ rw t (after_insert-IsInserting l _ a t h)
      ]

  apply_inserts-IsInserting :
      (ls : List PlannedLeg) (a : Apply) → IsInserting a → IsInserting (apply_inserts rt out m ls a)
  unfolding apply_inserts apply_insert
  apply_inserts-IsInserting [] a h = h
  apply_inserts-IsInserting (l ∷ ls) a h =
      apply_inserts-IsInserting ls (apply_insert rt out m l a)
        (insert_gated-IsInserting l (capability_skip m l.calendar_id) a h)

  -- No block is inserted for a leg of which a planned delete was not carried out, whichever the
  -- reason: the calendar is not writable, the guard refused, the backup or the call failed.
  pub apply_travel_blocks-IsFresh :
      (p : TravelBlockPlan)
      → All
          (IsFresh (apply_travel_blocks rt out m p).failures)
          (apply_travel_blocks rt out m p).effects
  unfolding apply_travel_blocks
  apply_travel_blocks-IsFresh p =
      let cleared = apply_deletes rt out m p.deletes (untouched rt out m) in
      let gone = apply_deletes-IsDeleting p.deletes (untouched rt out m) (λ k. refl, tt) in
      let done =
        apply_inserts-IsInserting p.adds cleared
          (gone.0, All-map _ _ cleared.effects (IsReady-start cleared.blocked_keys) gone.1) in
      All-map _ _ (apply_inserts rt out m p.adds cleared).effects
        (λ e h. IsFresh-ready (apply_inserts rt out m p.adds cleared) e done.0 h) done.1
