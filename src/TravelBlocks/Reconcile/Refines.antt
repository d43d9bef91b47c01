-- ===== src/TravelBlocks/Reconcile/Refines.antt =====
-- Which keys the diff adds or keeps.
pub mod Calendar
use whatsapp_radar.Base.{
  ℕ, String, ◌≡◌, refl, ap, ◌∙◌, subst, inl, inr, Bool, true, false, ◌||◌, Option, none, some, List,
  [], ◌∷◌, ◌++◌, arith, ◌==◌, eq_iff, any, find, All, Bool-cases,
}
use whatsapp_radar.Base.Eq.{text_key}
use whatsapp_radar.Base.Groups.{popped, without, AtKeys, AtKeys-without, All-popped}
use whatsapp_radar.TravelBlocks.Model.{Runtime, PlannedLeg, planned_key}
use whatsapp_radar.TravelBlocks.Blocks.{ExistingBlock, block_key}
use whatsapp_radar.TravelBlocks.Reconcile.{
  is_in, is_current, Diff, settle, diff_leg, diff_desired, reconcile,
}
use whatsapp_radar.TravelBlocks.Reconcile.Keys.{Placed, AtKeys-group_existing}
use whatsapp_radar.TravelBlocks.Reconcile.Guards.{wanted}

-- A leg of the key is added, or a block of the key is kept.
abbrev pub has_block : String → List PlannedLeg → List ExistingBlock → Bool
has_block k adds keeps = any (λ l. planned_key l == k) adds || any (λ b. block_key b == k) keeps

abbrev holds : String → Diff → Bool
holds k d = has_block k d.adds d.keeps

any-append {ℓ} :
    {A : Type ℓ} (p : A → Bool) (xs : List A) (y : A) → any p (xs ++ y ∷ []) ≡ any p xs || p y
any-append p [] y = ground arith
any-append p (x ∷ xs) y = ground (arith, any-append p xs y)

or_assoc : (a b c : Bool) → (a || b) || c ≡ a || (b || c)
or_assoc true b c = refl
or_assoc false b c = refl

module _ (rt : Runtime) (keys : List String) (k : String) where
  find-Placed :
      (l : PlannedLeg) (bs : List ExistingBlock) (m : ExistingBlock)
      → find (is_current rt l) bs ≡ some m
      → All (Placed keys (planned_key l)) bs
      → block_key m ≡ planned_key l
  find-Placed l [] m e h = cc
  find-Placed l (b ∷ bs) m e h = elim (Bool-cases (is_current rt l b)) [
    | inl c ↦
        let e' : some b ≡ some m = rw c at e in
        let same : b ≡ m = cc in subst (λ x. block_key x ≡ planned_key l) same h.0.0
    | inr c ↦ find-Placed l bs m (rw c at e) h.1
  ]

  settle-holds :
      (l : PlannedLeg) (bs : List ExistingBlock) (o : Option ExistingBlock) (d : Diff)
      → find (is_current rt l) bs ≡ o
      → All (Placed keys (planned_key l)) bs
      → holds k (settle rt l bs o d) ≡ holds k d || (planned_key l == k)
  unfolding settle
  settle-holds l bs none d e h = ground (arith, any-append (λ x. planned_key x == k) d.adds l)
  settle-holds l bs (some m) d e h = ground (
    arith,
    any-append (λ b. block_key b == k) d.keeps m,
    ap (λ j. j == k) (find-Placed l bs m e h),
  )

  settle-by_key :
      (l : PlannedLeg) (bs : List ExistingBlock) (o : Option ExistingBlock) (d : Diff)
      → AtKeys (Placed keys) d.by_key
      → AtKeys (Placed keys) (settle rt l bs o d).by_key
  unfolding settle
  settle-by_key l bs none d a = a
  settle-by_key l bs (some m) d a = a

  other_key :
      (l : PlannedLeg)
      → is_in k keys ≡ false
      → is_in (planned_key l) keys ≡ true
      → (planned_key l == k) ≡ false
  other_key l n t = elim (Bool-cases (planned_key l == k)) [
    | inl f ↦ absurd (cc (ap (λ x. is_in x keys) ((eq_iff (planned_key l) k).0 f)))
    | inr f ↦ f
  ]

  diff_leg-holds :
      (l : PlannedLeg) (d : Diff)
      → is_in k keys ≡ false
      → AtKeys (Placed keys) d.by_key
      → (holds k (diff_leg rt keys l d) ≡ holds k d || (planned_key l == k))
        × AtKeys (Placed keys) (diff_leg rt keys l d).by_key
  unfolding diff_leg
  diff_leg-holds l d n a = elim (Bool-cases (is_in (planned_key l) keys)) [
    | inl t ↦ rw t (rw (other_key l n t) (ground arith), a)
    | inr t ↦ rw t (
      settle-holds l (popped (planned_key l) d.by_key) _
          (record d { by_key = without (planned_key l) d.by_key }) refl
          (All-popped (Placed keys) (planned_key l) d.by_key a),
      settle-by_key l _ (find (is_current rt l) (popped (planned_key l) d.by_key)) _
          (AtKeys-without (Placed keys) (planned_key l) d.by_key a),
    )
  ]

  diff_desired-holds :
      (ls : List PlannedLeg) (d : Diff)
      → is_in k keys ≡ false
      → AtKeys (Placed keys) d.by_key
      → holds k (diff_desired rt keys ls d) ≡ holds k d || wanted ls k
  unfolding diff_desired
  diff_desired-holds [] d n a = ground arith
  diff_desired-holds (l ∷ ls) d n a =
      let one = diff_leg-holds l d n a in
      diff_desired-holds ls (diff_leg rt keys l d) n one.1
      ∙ ap (λ b. b || wanted ls k) one.0
      ∙ or_assoc (holds k d) (planned_key l == k) (wanted ls k)

  -- A key that is not unplanned is one of an added leg or of a kept block exactly when it is desired.
  pub reconcile-holds :
      (desired : List PlannedLeg) (existing : List ExistingBlock) (plan_end : ℕ)
      → is_in k keys ≡ false
      → has_block k
          (reconcile rt desired existing plan_end keys).adds
          (reconcile rt desired existing plan_end keys).keeps
        ≡ wanted desired k
  unfolding reconcile
  reconcile-holds desired existing plan_end n =
      diff_desired-holds desired _ n (AtKeys-group_existing keys [] [] existing tt)
