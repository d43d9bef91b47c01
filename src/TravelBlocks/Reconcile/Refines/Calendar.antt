-- ===== src/TravelBlocks/Reconcile/Refines/Calendar.antt =====
-- The calendar that the plan leaves, against its abstract view: which keys have a block.
use whatsapp_radar.Base.{
  ℕ, ◌+◌, ◌-◌, ◌≤◌, String, ◌≡◌, refl, inl, inr, Bool, true, false, not, ◌&&◌, ◌||◌, Option, none,
  some, List, [], ◌∷◌, ◌++◌, arith, ◌==◌, eq_iff, leb, ltb, any, count_where, All, All-map,
  All-append, Bool-cases,
}
use whatsapp_radar.Base.Eq.{text_key}
use whatsapp_radar.Base.Groups.{append_to}
use whatsapp_radar.Base.Sort.{All-sort}
use whatsapp_radar.TravelBlocks.Model.{Datetime, aware, naive, Runtime, PlannedLeg, planned_key}
use whatsapp_radar.TravelBlocks.Blocks.{ExistingBlock, block_key, block_start_moment}
use whatsapp_radar.TravelBlocks.Reconcile.{
  DeleteReason, replaced, orphaned, duplicate, ProtectReason, unplanned_leg, PlannedDelete,
  ProtectedBlock, Groups, Reconciliation, is_in, group_existing, is_current, protect_reason_at,
  protect_reason_beyond_plan, spare, sweep_group, sweep_orphans, Diff, diff_desired, leb_protected,
  reconcile,
}
use whatsapp_radar.TravelBlocks.Reconcile.Accounting.{reconcile_accounts, in_deletes}
use whatsapp_radar.TravelBlocks.Reconcile.Guards.{wanted, Grounds, IsGuarded, reconcile_guards}
use whatsapp_radar.TravelBlocks.Reconcile.Refines.{reconcile-holds}

abbrev pub of_key : String → ExistingBlock → Bool
of_key k b = block_key b == k

-- How many blocks of the key the calendar has once the plan is written: the listed blocks that are not
-- deleted, and those of the added legs.
abbrev pub blocks_after : String → List ExistingBlock → Reconciliation → ℕ
blocks_after k existing r =
    count_where (λ l. planned_key l == k) r.adds
    + (count_where (of_key k) existing - in_deletes (of_key k) r.deletes)

-- A start that is unknown, or not before the end of the plan.
abbrev pub starts_late : ℕ → Option Datetime → Bool
starts_late plan_end none = true
starts_late plan_end (some (naive local)) = true
starts_late plan_end (some (aware instant offset)) = leb plan_end instant

abbrev pub is_spared : Runtime → ℕ → ExistingBlock → Bool
is_spared rt plan_end b = starts_late plan_end (block_start_moment rt b)

any-count {ℓ} : {A : Type ℓ} (p : A → Bool) (xs : List A) → any p xs ≡ ltb 0 (count_where p xs)
any-count p [] = refl
any-count p (x ∷ xs) = ground (arith, any-count p xs)

module _ {ℓ} {A : Type ℓ} (p q : A → Bool) where
  count-and-le : (xs : List A) → count_where (λ x. p x && q x) xs ≤ count_where p xs
  count-and-le [] = omega arith
  count-and-le (x ∷ xs) = ground (arith, count-and-le xs)

  count-and-none :
      (xs : List A) → All (λ x. (p x && q x) ≡ false) xs → count_where (λ x. p x && q x) xs ≡ 0
  count-and-none [] h = refl
  count-and-none (x ∷ xs) h = rw h.0 (omega (arith, count-and-none xs h.1))

  count-and-all :
      (xs : List A)
      → All (λ x. (p x && not (q x)) ≡ false) xs
      → count_where (λ x. p x && q x) xs ≡ count_where p xs
  count-and-all [] h = refl
  count-and-all (x ∷ xs) h = ground (arith, count-and-all xs h.1, h.0)

module _ (rt : Runtime) (desired : List PlannedLeg) (plan_end : ℕ) (keys : List String)
    (k : String) where
  any-and :
      (q r : PlannedLeg → Bool) (ls : List PlannedLeg)
      → any (λ l. q l && r l) ls ≡ true
      → any q ls ≡ true
  any-and q r [] h = h
  any-and q r (l ∷ ls) h = ground (arith, h, any-and q r ls)

  -- No spared block of a key that is not wanted is deleted.
  unspared :
      (keeps : List ExistingBlock) (d : PlannedDelete)
      → wanted desired k ≡ false
      → IsGuarded rt desired plan_end keys keeps d
      → (of_key k d.block && is_spared rt plan_end d.block) ≡ false
  unspared keeps d w g = elim (Bool-cases (of_key k d.block)) [
    | inr e ↦ rw e refl
    | inl e ↦ rw e (go d.reason (rw ((eq_iff (block_key d.block) k).0 e) w) g.1)
  ]
    where
      go :
          (r : DeleteReason)
          → wanted desired (block_key d.block) ≡ false
          → Grounds rt desired plan_end keys keeps r d.block
          → is_spared rt plan_end d.block ≡ false
      go replaced n h = absurd (
          ground (
            arith,
            n,
            any-and (λ l. planned_key l == block_key d.block) (λ l. not (is_current rt l d.block))
                desired h,
          ))
      go orphaned n h = rw h.1.2 (ground (arith, h.1.3))
      go duplicate n h = absurd (ground (arith, n, h.0))

  -- A protected block of a key that is not unplanned is spared.
  abbrev IsSpared : ProtectedBlock → Type 0
  IsSpared p = (of_key k p.block && not (is_spared rt plan_end p.block)) ≡ false

  starts_late-reason :
      (b : ExistingBlock) (r : ProtectReason)
      → protect_reason_beyond_plan rt b plan_end ≡ some r
      → is_spared rt plan_end b ≡ true
  unfolding protect_reason_beyond_plan
  starts_late-reason b r = go (block_start_moment rt b)
    where
      go :
          (o : Option Datetime)
          → protect_reason_at plan_end o ≡ some r
          → starts_late plan_end o ≡ true
      go none e = refl
      go (some (naive local)) e = refl
      go (some (aware instant offset)) e = elim (Bool-cases (leb plan_end instant)) [
        | inl t ↦ t
        | inr t ↦ absurd (cc (let x : none ≡ some r = rw t at e in x))
      ]

  group_existing-IsSpared :
      (bs : List ExistingBlock) (g : Groups) (out : List ProtectedBlock)
      → is_in k keys ≡ false
      → All IsSpared out
      → All IsSpared (group_existing keys g out bs).1
  unfolding group_existing
  group_existing-IsSpared [] g out n h = h
  group_existing-IsSpared (b ∷ bs) g out n h =
      let more : List ProtectedBlock = record { block = b; reason = unplanned_leg } ∷ [] in
      elim (Bool-cases (is_in (block_key b) keys)) [
        | inl e ↦ rw e (
            group_existing-IsSpared bs g (out ++ more) n
              (All-append IsSpared out more h (other e, tt)))
        | inr e ↦ rw e (group_existing-IsSpared bs (append_to (block_key b) b g) out n h)
      ]
    where
      other :
          is_in (block_key b) keys ≡ true → IsSpared (record { block = b; reason = unplanned_leg })
      other e = elim (Bool-cases (of_key k b)) [
        | inl t ↦ absurd (ground (arith, n, rw ((eq_iff (block_key b) k).0 t) at e))
        | inr t ↦ rw t refl
      ]

  sweep_group-IsSpared :
      (bs : List ExistingBlock) (out : List PlannedDelete × List ProtectedBlock)
      → All IsSpared out.1
      → All IsSpared (sweep_group rt plan_end bs out).1
  unfolding sweep_group
  sweep_group-IsSpared [] out h = h
  sweep_group-IsSpared (b ∷ bs) out h =
      sweep_group-IsSpared bs (spare b out (protect_reason_beyond_plan rt b plan_end))
        (step (protect_reason_beyond_plan rt b plan_end) refl)
    where
      step :
          (o : Option ProtectReason)
          → protect_reason_beyond_plan rt b plan_end ≡ o
          → All IsSpared (spare b out o).1
      step none e = h
      step (some r) e =
          All-append IsSpared out.1 _ h (rw (starts_late-reason b r e) (ground arith), tt)

  sweep_orphans-IsSpared :
      (g : Groups) (out : List PlannedDelete × List ProtectedBlock)
      → All IsSpared out.1
      → All IsSpared (sweep_orphans rt plan_end g out).1
  unfolding sweep_orphans
  sweep_orphans-IsSpared [] out h = h
  sweep_orphans-IsSpared ((j, bs) ∷ g) out h =
      sweep_orphans-IsSpared g (sweep_group rt plan_end bs out) (sweep_group-IsSpared bs out h)

  reconcile-IsSpared :
      (existing : List ExistingBlock)
      → is_in k keys ≡ false
      → All IsSpared (reconcile rt desired existing plan_end keys).protected
  unfolding reconcile
  reconcile-IsSpared existing n =
      let grouped = group_existing keys [] [] existing in
      let start : Diff = record { by_key = grouped.0; adds = []; deletes = []; keeps = [] } in
      let d = diff_desired rt keys desired start in
      All-sort leb_protected IsSpared _ (
        sweep_orphans-IsSpared d.by_key (d.deletes, grouped.1)
          (group_existing-IsSpared existing [] [] n tt))

  -- The set of the keys that have a block is the abstract view of a calendar. The detailed plan, once it
  -- is written, makes it the set of the desired keys together with the keys of the listed blocks whose
  -- start is unknown or not before the end of the plan: a key that is not unplanned has a block left or
  -- added exactly when it is desired, or one of its listed blocks is such a block.
  pub reconcile_refines :
      (existing : List ExistingBlock)
      → is_in k keys ≡ false
      → ltb 0 (blocks_after k existing (reconcile rt desired existing plan_end keys))
        ≡ wanted desired k || any (λ b. of_key k b && is_spared rt plan_end b) existing
  reconcile_refines existing n =
      let r = reconcile rt desired existing plan_end keys in
      let spared = is_spared rt plan_end in
      let here : ExistingBlock → Bool = λ b. of_key k b && spared b in
      let counts = reconcile_accounts rt desired existing plan_end keys (of_key k) in
      let held = reconcile-holds rt keys k desired existing plan_end n in
      let added = any-count (λ l. planned_key l == k) r.adds in
      let kept = any-count (of_key k) r.keeps in
      elim (Bool-cases (wanted desired k)) [
        | inl w ↦ rw w (ground (arith, held, added, kept, counts, w))
        | inr w ↦
            let deleted =
              count-and-none (λ (d : PlannedDelete). of_key k d.block) (λ d. spared d.block)
                r.deletes
                (All-map _ _ r.deletes (λ d g. unspared r.keeps d w g)
                  (reconcile_guards rt desired plan_end keys existing).0) in
            let left = count-and-le (of_key k) spared r.keeps in
            let protected =
              count-and-all (λ (p : ProtectedBlock). of_key k p.block) (λ p. spared p.block)
                r.protected (reconcile-IsSpared existing n) in
            let late = reconcile_accounts rt desired existing plan_end keys here in
            rw (w, any-count here existing)
              (ground (arith, held, added, kept, counts, w, deleted, left, protected, late))
      ]
