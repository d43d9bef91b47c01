-- ===== src/TravelBlocks/Reconcile/Accounting.antt =====
-- Every listed block is decided once: it is deleted, kept or protected.
use whatsapp_radar.Base.{
  ℕ, ◌+◌, String, ◌≡◌, refl, inl, inr, Bool, some, List, [], ◌∷◌, ◌++◌, arith, count_where,
  count_where-append, count_where-map, find, Bool-cases, Option-cases,
}
use whatsapp_radar.Base.Sort.{count_where-sort}
use whatsapp_radar.TravelBlocks.Model.{Runtime, PlannedLeg, planned_key}
use whatsapp_radar.TravelBlocks.Blocks.{ExistingBlock, block_key}
use whatsapp_radar.TravelBlocks.Reconcile.{
  replaced, orphaned, duplicate, unplanned_leg, PlannedDelete, ProtectedBlock, Groups, is_in,
  group_existing, is_current, protect_reason_beyond_plan, sweep_one, sweep_group, sweep_orphans,
  DeleteReason, deletes_of, but_first, Diff, settle, diff_leg, diff_desired, leb_delete,
  leb_protected, reconcile,
}
use whatsapp_radar.Base.Eq.{text_key}
use whatsapp_radar.Base.Groups.{append_to, popped, without, flat, count-append_to, count-popped}

module _ (p : ExistingBlock → Bool) where
  abbrev pub in_deletes : List PlannedDelete → ℕ
  in_deletes = count_where (λ d. p d.block)

  abbrev pub in_protected : List ProtectedBlock → ℕ
  in_protected = count_where (λ d. p d.block)

  count-group_existing :
      (keys : List String) (g : Groups) (out : List ProtectedBlock) (bs : List ExistingBlock)
      → count_where p (flat (group_existing keys g out bs).0)
          + in_protected (group_existing keys g out bs).1
        ≡ count_where p (flat g) + in_protected out + count_where p bs
  unfolding group_existing
  count-group_existing keys g out [] = omega arith
  count-group_existing keys g out (b ∷ bs) =
      let more : List ProtectedBlock = record { block = b; reason = unplanned_leg } ∷ [] in
      elim (Bool-cases (is_in (block_key b) keys)) [
        | inl e ↦ rw e (
            omega (
              arith,
              count-group_existing keys g (out ++ more) bs,
              count_where-append (λ (d : ProtectedBlock). p d.block) out more,
            ))
        | inr e ↦ rw e (
            omega (
              arith,
              count-group_existing keys (append_to (block_key b) b g) out bs,
              count-append_to p (block_key b) b g,
            ))
      ]

  count-deletes_of :
      (reason : DeleteReason) (bs : List ExistingBlock)
      → in_deletes (deletes_of reason bs) ≡ count_where p bs
  count-deletes_of reason bs =
      count_where-map (λ (d : PlannedDelete). p d.block)
        (λ b. record { block = b; reason = reason }) bs

  count-but_first :
      (q : ExistingBlock → Bool) (bs : List ExistingBlock) (m : ExistingBlock)
      → find q bs ≡ some m
      → count_where p (m ∷ but_first q bs) ≡ count_where p bs
  unfolding but_first
  count-but_first q [] m h = cc
  count-but_first q (b ∷ bs) m h = ground (arith, count-but_first q bs m)

  abbrev in_diff : Diff → ℕ
  in_diff d = in_deletes d.deletes + count_where p d.keeps + count_where p (flat d.by_key)

  module _ (rt : Runtime) where
    count-settle :
        (l : PlannedLeg) (bs : List ExistingBlock) (d : Diff)
        → in_diff (settle rt l bs (find (is_current rt l) bs) d) ≡ in_diff d + count_where p bs
    unfolding settle
    count-settle l bs d = elim (Option-cases (find (is_current rt l) bs)) [
      | inl e ↦ rw e (
          omega (
            arith,
            count_where-append (λ (x : PlannedDelete). p x.block) d.deletes
                (deletes_of replaced bs),
            count-deletes_of replaced bs,
          ))
      | inr (m, e) ↦ rw e (
          omega (
            arith,
            count_where-append (λ (x : PlannedDelete). p x.block) d.deletes
                (deletes_of duplicate (but_first (is_current rt l) bs)),
            count-deletes_of duplicate (but_first (is_current rt l) bs),
            count_where-append p d.keeps (m ∷ []),
            count-but_first (is_current rt l) bs m e,
          ))
    ]

    count-diff_leg :
        (keys : List String) (l : PlannedLeg) (d : Diff)
        → in_diff (diff_leg rt keys l d) ≡ in_diff d
    unfolding diff_leg
    count-diff_leg keys l d = elim (Bool-cases (is_in (planned_key l) keys)) [
      | inl e ↦ rw e refl
      | inr e ↦ rw e (
          omega (
            arith,
            count-settle l (popped (planned_key l) d.by_key)
                (record d { by_key = without (planned_key l) d.by_key }),
            count-popped p (planned_key l) d.by_key,
          ))
    ]

    count-diff_desired :
        (keys : List String) (ls : List PlannedLeg) (d : Diff)
        → in_diff (diff_desired rt keys ls d) ≡ in_diff d
    unfolding diff_desired
    count-diff_desired keys [] d = refl
    count-diff_desired keys (l ∷ ls) d =
        omega (arith, count-diff_desired keys ls (diff_leg rt keys l d), count-diff_leg keys l d)

    abbrev in_out : List PlannedDelete × List ProtectedBlock → ℕ
    in_out out = in_deletes out.0 + in_protected out.1

    count-sweep_one :
        (plan_end : ℕ) (b : ExistingBlock) (out : List PlannedDelete × List ProtectedBlock)
        → in_out (sweep_one rt plan_end b out) ≡ in_out out + count_where p (b ∷ [])
    count-sweep_one plan_end b out =
        elim (Option-cases (protect_reason_beyond_plan rt b plan_end)) [
          | inl e ↦ rw e (
              omega (
                arith,
                count_where-append (λ (x : PlannedDelete). p x.block) out.0
                    (record { block = b; reason = orphaned } ∷ []),
              ))
          | inr (s, e) ↦ rw e (
              omega (
                arith,
                count_where-append (λ (x : ProtectedBlock). p x.block) out.1
                    (record { block = b; reason = s } ∷ []),
              ))
        ]

    count-sweep_group :
        (plan_end : ℕ) (bs : List ExistingBlock) (out : List PlannedDelete × List ProtectedBlock)
        → in_out (sweep_group rt plan_end bs out) ≡ in_out out + count_where p bs
    unfolding sweep_group
    count-sweep_group plan_end [] out = omega arith
    count-sweep_group plan_end (b ∷ bs) out = omega (
      arith,
      count-sweep_group plan_end bs (sweep_one rt plan_end b out),
      count-sweep_one plan_end b out,
    )

    count-sweep_orphans :
        (plan_end : ℕ) (g : Groups) (out : List PlannedDelete × List ProtectedBlock)
        → in_out (sweep_orphans rt plan_end g out) ≡ in_out out + count_where p (flat g)
    unfolding sweep_orphans
    count-sweep_orphans plan_end [] out = omega arith
    count-sweep_orphans plan_end ((k, bs) ∷ g) out = omega (
      arith,
      count-sweep_orphans plan_end g (sweep_group rt plan_end bs out),
      count-sweep_group plan_end bs out,
      count_where-append p bs (flat g),
    )

-- Whatever the plan, the horizon and the unplanned keys: of the listed blocks that satisfy any given
-- test, each is found exactly once among the deletes, the keeps and the protected blocks together,
-- and no other block is found there.
pub reconcile_accounts :
    (rt : Runtime) (desired : List PlannedLeg) (existing : List ExistingBlock) (plan_end : ℕ)
    (keys : List String) (p : ExistingBlock → Bool)
    → in_deletes p (reconcile rt desired existing plan_end keys).deletes
        + count_where p (reconcile rt desired existing plan_end keys).keeps
        + in_protected p (reconcile rt desired existing plan_end keys).protected
      ≡ count_where p existing
unfolding reconcile
reconcile_accounts rt desired existing plan_end keys p =
    let grouped = group_existing keys [] [] existing in
    let start : Diff = record { by_key = grouped.0; adds = []; deletes = []; keeps = [] } in
    let d = diff_desired rt keys desired start in
    let swept = sweep_orphans rt plan_end d.by_key (d.deletes, grouped.1) in
    omega (
      arith,
      count_where-sort leb_delete (λ (x : PlannedDelete). p x.block) swept.0,
      count_where-sort leb_protected (λ (x : ProtectedBlock). p x.block) swept.1,
      count-group_existing p keys [] [] existing,
      count-diff_desired p rt keys desired start,
      count-sweep_orphans p rt plan_end d.by_key (d.deletes, grouped.1),
    )
