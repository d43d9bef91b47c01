-- ===== src/TravelBlocks/Reconcile/Guards.antt =====
-- Why a block may be deleted, and why a block may be kept.
use whatsapp_radar.Base.{
  ℕ, ◌<◌, String, ◌≡◌, refl, sym, subst, ◌∙◌, ◌⊎◌, inl, inr, Bool, true, false, not, ◌&&◌, Option,
  none, some, List, [], ◌∷◌, ◌++◌, arith, ◌==◌, eq_iff, any, find, All, All-append, All-map,
  All-map_intro, Bool-cases, Option-cases,
}
use whatsapp_radar.Base.Sort.{All-sort}
use whatsapp_radar.TravelBlocks.Model.{Datetime, aware, naive, Runtime, PlannedLeg, planned_key}
use whatsapp_radar.TravelBlocks.Blocks.{ExistingBlock, block_key, block_start_moment}
use whatsapp_radar.TravelBlocks.Reconcile.{
  DeleteReason, replaced, orphaned, duplicate, ProtectReason, PlannedDelete, ProtectedBlock, Groups,
  is_in, group_existing, is_current, protect_reason_at, protect_reason_beyond_plan, spare,
  sweep_group, sweep_orphans, deletes_of, but_first, Diff, settle, diff_leg, diff_desired,
  leb_delete, reconcile,
}
use whatsapp_radar.Base.Eq.{text_key}
use whatsapp_radar.Base.Groups.{
  popped, without, AtKeys, AtKeys-without, All-popped, IsDistinct, Lacks, IsDistinct-without,
  Lacks-without_self,
}
use whatsapp_radar.TravelBlocks.Reconcile.Keys.{
  Placed, IsDistinct-group_existing, AtKeys-group_existing,
}

-- A planned leg asks for the key.
abbrev pub wanted : List PlannedLeg → String → Bool
wanted ls k = any (λ l. planned_key l == k) ls

-- The block's start is known, and lies before the end of the plan.
abbrev pub StartsBefore : Runtime → ℕ → ExistingBlock → Type 0
StartsBefore rt plan_end b =
    (instant : ℕ) × (offset : String) × (block_start_moment rt b ≡ some (aware instant offset))
    × (instant < plan_end)

-- Some planned leg of the block's key is content with the block.
abbrev pub satisfied : Runtime → List PlannedLeg → ExistingBlock → Bool
satisfied rt ls b = any (λ l. planned_key l == block_key b && is_current rt l b) ls

-- Some planned leg of the block's key wants another content.
abbrev pub outdated : Runtime → List PlannedLeg → ExistingBlock → Bool
outdated rt ls b = any (λ l. planned_key l == block_key b && not (is_current rt l b)) ls

module _ (rt : Runtime) (desired : List PlannedLeg) (plan_end : ℕ) (keys : List String) where
  -- What each reason for a delete establishes, where `keeps` are the blocks that stay.
  abbrev pub Grounds : List ExistingBlock → DeleteReason → ExistingBlock → Type 0
  Grounds keeps replaced b = outdated rt desired b ≡ true
  Grounds keeps orphaned b = (wanted desired (block_key b) ≡ false) × StartsBefore rt plan_end b
  Grounds keeps duplicate b =
      (wanted desired (block_key b) ≡ true)
      × (any (λ kept. block_key kept == block_key b) keeps ≡ true)

  abbrev pub IsGuarded : List ExistingBlock → PlannedDelete → Type 0
  IsGuarded keeps d = (is_in (block_key d.block) keys ≡ false) × Grounds keeps d.reason d.block

  abbrev pub IsKeepable : ExistingBlock → Type 0
  IsKeepable b = (is_in (block_key b) keys ≡ false) × (satisfied rt desired b ≡ true)

  -- Once `ls` is left to do, an unwanted group is one that the done legs did not want.
  abbrev Left : List PlannedLeg → String → ExistingBlock → Type 0
  Left ls k b = Placed keys k b × (wanted ls k ≡ false → wanted desired k ≡ false)

  abbrev IsPart : List PlannedLeg → Type 0
  IsPart ls = (q : PlannedLeg → Bool) → any q ls ≡ true → any q desired ≡ true

  record Inv (ls : List PlannedLeg) (d : Diff) : Type 0 where
    at : AtKeys (Left ls) d.by_key
    distinct : IsDistinct d.by_key
    deletes : All (IsGuarded d.keeps) d.deletes
    keeps : All IsKeepable d.keeps

  any-append_left :
      (k : String) (m : ExistingBlock) (bs : List ExistingBlock)
      → any (λ kept. block_key kept == k) bs ≡ true
      → any (λ kept. block_key kept == k) (bs ++ m ∷ []) ≡ true
  any-append_left k m [] h = cc
  any-append_left k m (b ∷ bs) h = ground (arith, any-append_left k m bs)

  any-append_last :
      (k : String) (m : ExistingBlock) (bs : List ExistingBlock)
      → block_key m ≡ k
      → any (λ kept. block_key kept == k) (bs ++ m ∷ []) ≡ true
  any-append_last k m [] h = ground (arith, eq_iff (block_key m) k)
  any-append_last k m (b ∷ bs) h = ground (arith, any-append_last k m bs h)

  IsGuarded-more :
      (m : ExistingBlock) (bs : List ExistingBlock) (d : PlannedDelete)
      → IsGuarded bs d
      → IsGuarded (bs ++ m ∷ []) d
  IsGuarded-more m bs d h = go d.reason h
    where
      go :
          (r : DeleteReason)
          → (is_in (block_key d.block) keys ≡ false) × Grounds bs r d.block
          → (is_in (block_key d.block) keys ≡ false) × Grounds (bs ++ m ∷ []) r d.block
      go replaced h = h
      go orphaned h = h
      go duplicate h = (h.0, (h.1.0, any-append_left (block_key d.block) m bs h.1.1))

  -- A group past the leg `l`: either `l` is unplanned, or its group is gone.
  Left-next :
      (l : PlannedLeg) (ls : List PlannedLeg) (g : Groups)
      → (is_in (planned_key l) keys ≡ true) ⊎ Lacks (planned_key l) g
      → AtKeys (Left (l ∷ ls)) g
      → AtKeys (Left ls) g
  Left-next l ls [] e a = tt
  Left-next l ls ((j, bs) ∷ g) e a = (
    All-map (Left (l ∷ ls) j) (Left ls j) bs
        (λ b h. (h.0, λ (w : wanted ls j ≡ false). h.1 (other b h.0 e w))) a.0,
    Left-next l ls g (rest e) a.1,
  )
    where
      rest :
          (is_in (planned_key l) keys ≡ true) ⊎ Lacks (planned_key l) ((j, bs) ∷ g)
          → (is_in (planned_key l) keys ≡ true) ⊎ Lacks (planned_key l) g
      rest (inl h) = inl h
      rest (inr h) = inr h.1

      other :
          (b : ExistingBlock)
          → Placed keys j b
          → (is_in (planned_key l) keys ≡ true) ⊎ Lacks (planned_key l) ((j, bs) ∷ g)
          → wanted ls j ≡ false
          → wanted (l ∷ ls) j ≡ false
      other b p (inl h) w = ground (arith, eq_iff (planned_key l) j, p.1)
      other b p (inr h) w = ground (arith, eq_iff (planned_key l) j, eq_iff j (planned_key l), h.0)

  wanted_leg :
      (l : PlannedLeg) (ls : List PlannedLeg) (k : String)
      → IsPart (l ∷ ls)
      → planned_key l ≡ k
      → wanted desired k ≡ true
  wanted_leg l ls k part e =
      part (λ x. planned_key x == k) (ground (arith, eq_iff (planned_key l) k))

  find-current :
      (l : PlannedLeg) (bs : List ExistingBlock) (m : ExistingBlock) (P : ExistingBlock → Type 0)
      → find (is_current rt l) bs ≡ some m
      → All P bs
      → P m × (is_current rt l m ≡ true)
  find-current l [] m P e h = cc
  find-current l (b ∷ bs) m P e h = elim (Bool-cases (is_current rt l b)) [
    | inl c ↦
        let e' : some b ≡ some m = rw c at e in
        let same : b ≡ m = cc in subst (λ x. P x × (is_current rt l x ≡ true)) same (h.0, c)
    | inr c ↦ find-current l bs m P (rw c at e) h.1
  ]

  find-none :
      (l : PlannedLeg) (bs : List ExistingBlock)
      → find (is_current rt l) bs ≡ none
      → All (λ b. is_current rt l b ≡ false) bs
  find-none l [] e = tt
  find-none l (b ∷ bs) e = elim (Bool-cases (is_current rt l b)) [
    | inl c ↦ absurd (cc (let x : some b ≡ none = rw c at e in x))
    | inr c ↦ (c, find-none l bs (rw c at e))
  ]

  All-but_first :
      (P : ExistingBlock → Type 0) (q : ExistingBlock → Bool) (bs : List ExistingBlock)
      → All P bs
      → All P (but_first q bs)
  unfolding but_first
  All-but_first P q [] h = tt
  All-but_first P q (b ∷ bs) h = elim (Bool-cases (q b)) [
    | inl c ↦ rw c h.1
    | inr c ↦ rw c (h.0, All-but_first P q bs h.1)
  ]

  settle-Inv :
      (l : PlannedLeg) (ls : List PlannedLeg) (bs : List ExistingBlock) (d : Diff)
      → IsPart (l ∷ ls)
      → is_in (planned_key l) keys ≡ false
      → All (Left (l ∷ ls) (planned_key l)) bs
      → Inv ls d
      → Inv ls (settle rt l bs (find (is_current rt l) bs) d)
  unfolding settle
  settle-Inv l ls bs d part planned h v = elim (Option-cases (find (is_current rt l) bs)) [
    | inl e ↦ rw e (record {
      at = v.at;
      distinct = v.distinct;
      deletes =
          All-append (IsGuarded d.keeps) d.deletes (deletes_of replaced bs) v.deletes
            (All-map_intro (IsGuarded d.keeps) _ bs (outdated_all bs h (find-none l bs e)));
      keeps = v.keeps;
    })
    | inr (m, e) ↦
        let found : Left (l ∷ ls) (planned_key l) m × (is_current rt l m ≡ true) =
          find-current l bs m (Left (l ∷ ls) (planned_key l)) e h in
        rw e (record {
          at = v.at;
          distinct = v.distinct;
          deletes =
              All-append (IsGuarded (d.keeps ++ m ∷ [])) d.deletes _
                (All-map (IsGuarded d.keeps) (IsGuarded (d.keeps ++ m ∷ [])) d.deletes
                  (IsGuarded-more m d.keeps) v.deletes)
                (All-map_intro (IsGuarded (d.keeps ++ m ∷ [])) _ (but_first (is_current rt l) bs) (
                  All-map (Left (l ∷ ls) (planned_key l)) _ (but_first (is_current rt l) bs)
                    (λ b x. doubled m (found.0).0.0 b x.0)
                    (All-but_first (Left (l ∷ ls) (planned_key l)) (is_current rt l) bs h)));
          keeps = All-append IsKeepable d.keeps (m ∷ []) v.keeps (kept m (found.0).0.0 found.1, tt);
        })
  ]
    where
      planned_block :
          (b : ExistingBlock) → block_key b ≡ planned_key l → is_in (block_key b) keys ≡ false
      planned_block b e = rw e planned

      outdated_all :
          (cs : List ExistingBlock)
          → All (Left (l ∷ ls) (planned_key l)) cs
          → All (λ b. is_current rt l b ≡ false) cs
          → All (λ b. IsGuarded d.keeps (record { block = b; reason = replaced })) cs
      outdated_all [] x y = tt
      outdated_all (b ∷ cs) x y = (
        (
          planned_block b (x.0).0.0,
          part (λ z. planned_key z == block_key b && not (is_current rt z b))
              (ground (arith, eq_iff (planned_key l) (block_key b), (x.0).0.0, y.0)),
        ),
        outdated_all cs x.1 y.1,
      )

      doubled :
          (m : ExistingBlock)
          → block_key m ≡ planned_key l
          → (b : ExistingBlock) → Placed keys (planned_key l) b
          → IsGuarded (d.keeps ++ m ∷ []) (record { block = b; reason = duplicate })
      doubled m e b x = (
        planned_block b x.0,
        (
          wanted_leg l ls (block_key b) part (sym x.0),
          any-append_last (block_key b) m d.keeps (e ∙ sym x.0),
        ),
      )

      kept :
          (m : ExistingBlock)
          → block_key m ≡ planned_key l
          → is_current rt l m ≡ true
          → IsKeepable m
      kept m e c = (
        planned_block m e,
        part (λ z. planned_key z == block_key m && is_current rt z m)
            (ground (arith, eq_iff (planned_key l) (block_key m))),
      )

  diff_leg-Inv :
      (l : PlannedLeg) (ls : List PlannedLeg) (d : Diff)
      → IsPart (l ∷ ls)
      → Inv (l ∷ ls) d
      → Inv ls (diff_leg rt keys l d)
  unfolding diff_leg
  diff_leg-Inv l ls d part v = elim (Bool-cases (is_in (planned_key l) keys)) [
    | inl e ↦ rw e (record {
      at = Left-next l ls d.by_key (inl e) v.at;
      distinct = v.distinct;
      deletes = v.deletes;
      keeps = v.keeps;
    })
    | inr e ↦ rw e (
        settle-Inv l ls (popped (planned_key l) d.by_key) _ part e
          (All-popped (Left (l ∷ ls)) (planned_key l) d.by_key v.at)
          (record {
            at =
                Left-next l ls (without (planned_key l) d.by_key)
                  (inr (Lacks-without_self (planned_key l) d.by_key v.distinct))
                  (AtKeys-without (Left (l ∷ ls)) (planned_key l) d.by_key v.at);
            distinct = IsDistinct-without (planned_key l) d.by_key v.distinct;
            deletes = v.deletes;
            keeps = v.keeps;
          }))
  ]

  diff_desired-Inv :
      (ls : List PlannedLeg) (d : Diff) → IsPart ls → Inv ls d → Inv [] (diff_desired rt keys ls d)
  unfolding diff_desired
  diff_desired-Inv [] d part v = v
  diff_desired-Inv (l ∷ ls) d part v =
      diff_desired-Inv ls (diff_leg rt keys l d) (λ q h. part q (ground arith))
        (diff_leg-Inv l ls d part v)

  starts_before :
      (b : ExistingBlock)
      → protect_reason_beyond_plan rt b plan_end ≡ none
      → StartsBefore rt plan_end b
  unfolding protect_reason_beyond_plan
  starts_before b = go (block_start_moment rt b) refl
    where
      go :
          (o : Option Datetime)
          → block_start_moment rt b ≡ o
          → protect_reason_at plan_end o ≡ none
          → StartsBefore rt plan_end b
      go none h e = cc
      go (some (naive local)) h e = cc
      go (some (aware instant offset)) h e = (instant, offset, h, ground arith)

  module _ (kept : List ExistingBlock) where
    sweep_group-Guarded :
        (k : String) (bs : List ExistingBlock) (out : List PlannedDelete × List ProtectedBlock)
        → All (Left [] k) bs
        → All (IsGuarded kept) out.0
        → All (IsGuarded kept) (sweep_group rt plan_end bs out).0
    unfolding sweep_group
    sweep_group-Guarded k [] out a h = h
    sweep_group-Guarded k (b ∷ bs) out a h =
        sweep_group-Guarded k bs (spare b out (protect_reason_beyond_plan rt b plan_end)) a.1
          (step (protect_reason_beyond_plan rt b plan_end) refl)
      where
        step :
            (o : Option ProtectReason)
            → protect_reason_beyond_plan rt b plan_end ≡ o
            → All (IsGuarded kept) (spare b out o).0
        step (some r) e = h
        step none e =
            All-append (IsGuarded kept) out.0 _ h
              ((rw (a.0).0.0 (a.0).0.1, (rw (a.0).0.0 ((a.0).1 refl), starts_before b e)), tt)

    sweep_orphans-Guarded :
        (g : Groups) (out : List PlannedDelete × List ProtectedBlock)
        → AtKeys (Left []) g
        → All (IsGuarded kept) out.0
        → All (IsGuarded kept) (sweep_orphans rt plan_end g out).0
    unfolding sweep_orphans
    sweep_orphans-Guarded [] out a h = h
    sweep_orphans-Guarded ((k, bs) ∷ g) out a h =
        sweep_orphans-Guarded g (sweep_group rt plan_end bs out) a.1
          (sweep_group-Guarded k bs out a.0 h)

  AtKeys-start : (g : Groups) → AtKeys (Placed keys) g → AtKeys (Left desired) g
  AtKeys-start [] a = tt
  AtKeys-start ((k, bs) ∷ g) a =
      (All-map (Placed keys k) (Left desired k) bs (λ b h. (h, λ w. w)) a.0, AtKeys-start g a.1)

  -- Every delete is guarded: its leg key is no unplanned one, and its reason holds. A replaced block
  -- has a planned leg of its key that wants another content; an orphaned one has no planned leg, and
  -- a start that is known and lies before the end of the plan; a duplicate has a planned leg, and a
  -- block of its key is kept. Every kept block is current for some planned leg of its key, and its
  -- key is no unplanned one.
  pub reconcile_guards :
      (existing : List ExistingBlock)
      → All
          (IsGuarded (reconcile rt desired existing plan_end keys).keeps)
          (reconcile rt desired existing plan_end keys).deletes
        × All IsKeepable (reconcile rt desired existing plan_end keys).keeps
  unfolding reconcile
  reconcile_guards existing =
      let grouped = group_existing keys [] [] existing in
      let start : Diff = record { by_key = grouped.0; adds = []; deletes = []; keeps = [] } in
      let d = diff_desired rt keys desired start in
      let v : Inv [] d =
        diff_desired-Inv desired start (λ q h. h)
          (record {
            at = AtKeys-start grouped.0 (AtKeys-group_existing keys [] [] existing tt);
            distinct = IsDistinct-group_existing keys [] [] existing tt;
            deletes = tt;
            keeps = tt;
          }) in
      (
        All-sort leb_delete (IsGuarded d.keeps) _
            (sweep_orphans-Guarded d.keeps d.by_key (d.deletes, grouped.1) v.at v.deletes),
        v.keeps,
      )
