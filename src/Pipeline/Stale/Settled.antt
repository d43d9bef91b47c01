-- ===== src/Pipeline/Stale/Settled.antt =====
-- What the reconcile of stale runs makes of the table of runs.
use whatsapp_radar.Base.{
  ℕ, ◌+◌, String, ◌≡◌, ◌≢◌, refl, sym, ap, ◌∙◌, inl, inr, Bool, true, false, ◌&&◌, Option, List, [],
  ◌∷◌, map, arith, eqb, eqb_iff, eqb_refl, leb, select, update_where, count_where, All, All-map,
  Bool-cases, if◌then◌else◌,
}
use whatsapp_radar.Base.Sort.{sort, All-sort, count_where-sort}
use whatsapp_radar.Pipeline.State.{Run, Radar}
use whatsapp_radar.Pipeline.Stale.{
  is_running, abandoned, abandon_run, is_bounded, too_old, stale_reason, sweep_stale,
  reconcile_stale_runs,
}

abbrev pub UniqueIds : List Run → Type 0
UniqueIds [] = Unit
UniqueIds (x ∷ xs) = (count_where (λ w. eqb w.id x.id) xs ≡ 0) × UniqueIds xs

module _ (read : String → Option ℕ) (now : ℕ) where
  -- What one selected row does to a row of the table.
  abbrev touch : Run → Run → Run
  touch w x =
      if too_old read now (read w.started_at)
      then (if eqb x.id w.id && is_running x then abandoned (stale_reason read now w) x else x)
      else x

  abbrev touched : List Run → Run → Run
  touched [] x = x
  touched (w ∷ ws) x = touched ws (touch w x)

  map-touch :
      (ws : List Run) (w : Run) (xs : List Run)
      → too_old read now (read w.started_at) ≡ true
      → map (touched ws) (
          update_where
            (λ x. eqb x.id w.id && is_running x)
            (abandoned (stale_reason read now w))
            xs)
        ≡ map (touched (w ∷ ws)) xs
  map-touch ws w [] h = refl
  map-touch ws w (x ∷ xs) h = rw h (
      ap
        (λ ys.
          touched ws
            (if eqb x.id w.id && is_running x then abandoned (stale_reason read now w) x else x)
          ∷ ys)
        (map-touch ws w xs h))

  map-idle :
      (ws : List Run) (w : Run) (xs : List Run)
      → too_old read now (read w.started_at) ≡ false
      → map (touched ws) xs ≡ map (touched (w ∷ ws)) xs
  map-idle ws w [] h = refl
  map-idle ws w (x ∷ xs) h = rw h (ap (λ ys. touched ws x ∷ ys) (map-idle ws w xs h))

  map-nothing : (xs : List Run) → map (touched []) xs ≡ xs
  map-nothing [] = refl
  map-nothing (x ∷ xs) = ap (λ ys. x ∷ ys) (map-nothing xs)

  runs-sweep_stale :
      (ws : List Run) (r : Radar) → (sweep_stale read now ws r).0.runs ≡ map (touched ws) r.runs
  unfolding sweep_stale abandon_run
  runs-sweep_stale [] r = sym (map-nothing r.runs)
  runs-sweep_stale (w ∷ ws) r = elim (Bool-cases (too_old read now (read w.started_at))) [
    | inl e ↦ rw e (
        runs-sweep_stale ws (abandon_run w.id (stale_reason read now w) r).0
        ∙ map-touch ws w r.runs e)
    | inr e ↦ rw e (runs-sweep_stale ws r ∙ map-idle ws w r.runs e)
  ]

  touch-idle : (w x : Run) → is_running x ≡ false → touch w x ≡ x
  touch-idle w x h = ground (arith, h)

  touched-idle : (ws : List Run) (x : Run) → is_running x ≡ false → touched ws x ≡ x
  touched-idle [] x h = refl
  touched-idle (w ∷ ws) x h = rw (touch-idle w x h) (touched-idle ws x h)

  -- The row that a stale run is to be.
  abbrev pub settled : Run → Run
  settled x =
      if is_running x && is_bounded x && too_old read now (read x.started_at)
      then abandoned (stale_reason read now x) x
      else x

  touch-other : (w x : Run) → eqb w.id x.id ≡ false → touch w x ≡ x
  touch-other w x h = let other : eqb x.id w.id ≡ false = ground (arith, h) in ground (arith, other)

  touched-absent :
      (ws : List Run) (x : Run) → count_where (λ w. eqb w.id x.id) ws ≡ 0 → touched ws x ≡ x
  touched-absent [] x h = refl
  touched-absent (w ∷ ws) x h = elim (Bool-cases (eqb w.id x.id)) [
    | inl e ↦ absurd (ground (arith, h, e))
    | inr e ↦ rw (touch-other w x e) (touched-absent ws x (ground (arith, h, e)))
  ]

  -- Every row of the list with the id is the row itself.
  abbrev Own : List Run → Run → Type 0
  Own ws x = All (λ w. w.id ≡ x.id → w ≡ x) ws

  touch-young : (x : Run) → too_old read now (read x.started_at) ≡ false → touch x x ≡ x
  touch-young x h = rw h refl

  touch-old :
      (x : Run)
      → too_old read now (read x.started_at) ≡ true
      → is_running x ≡ true
      → touch x x ≡ abandoned (stale_reason read now x) x
  touch-old x h r = rw (h, eqb_refl x.id, r) refl

  touched-young :
      (ws : List Run) (x : Run)
      → Own ws x
      → too_old read now (read x.started_at) ≡ false
      → touched ws x ≡ x
  touched-young [] x own h = refl
  touched-young (w ∷ ws) x own h = elim (Bool-cases (eqb w.id x.id)) [
    | inl e ↦ rw (own.0 ((eqb_iff w.id x.id).0 e), touch-young x h) (touched-young ws x own.1 h)
    | inr e ↦ rw (touch-other w x e) (touched-young ws x own.1 h)
  ]

  touched-old :
      (ws : List Run) (x : Run)
      → Own ws x
      → count_where (λ w. eqb w.id x.id) ws ≢ 0
      → is_running x ≡ true
      → too_old read now (read x.started_at) ≡ true
      → touched ws x ≡ abandoned (stale_reason read now x) x
  touched-old [] x own c r h = absurd (c refl)
  touched-old (w ∷ ws) x own c r h = elim (Bool-cases (eqb w.id x.id)) [
    | inl e ↦
        rw (own.0 ((eqb_iff w.id x.id).0 e), touch-old x h r)
          (touched-idle ws (abandoned (stale_reason read now x) x) refl)
    | inr e ↦ rw (touch-other w x e) (
        touched-old ws x own.1
          (λ (z : count_where (λ w. eqb w.id x.id) ws ≡ 0). c (ground (arith, z, e))) r h)
  ]

  abbrev is_selected : Run → Bool
  is_selected x = is_running x && is_bounded x

  count-selected :
      (ws : List Run) (x : Run)
      → Own ws x
      → count_where (λ w. eqb w.id x.id) (select is_selected ws)
        ≡ (if is_selected x then count_where (λ w. eqb w.id x.id) ws else 0)
  count-selected [] x own = ground arith
  count-selected (w ∷ ws) x own = elim (Bool-cases (eqb w.id x.id)) [
    | inl e ↦
        let same : w ≡ x = own.0 ((eqb_iff w.id x.id).0 e) in
        elim (Bool-cases (is_selected x)) [
          | inl f ↦
              rw (same, f)
                (ap (λ n. (if eqb x.id x.id then 1 else 0) + n)
                  (rw f at (count-selected ws x own.1)))
          | inr f ↦ rw (same, f) (rw f at (count-selected ws x own.1))
        ]
    | inr e ↦ elim (Bool-cases (is_selected w)) [
      | inl f ↦ rw f (ground (arith, e, count-selected ws x own.1))
      | inr f ↦ rw f (ground (arith, e, count-selected ws x own.1))
    ]
  ]

  Own-select : (ws : List Run) (x : Run) → Own ws x → Own (select is_selected ws) x
  Own-select [] x own = tt
  Own-select (w ∷ ws) x own = elim (Bool-cases (is_selected w)) [
    | inl e ↦ rw e (own.0, Own-select ws x own.1)
    | inr e ↦ rw e (Own-select ws x own.1)
  ]

  abbrev IsRow : List Run → Run → Type 0
  IsRow t x = Own t x × (count_where (λ w. eqb w.id x.id) t ≢ 0)

  Own-absent : (ws : List Run) (x : Run) → count_where (λ w. eqb w.id x.id) ws ≡ 0 → Own ws x
  Own-absent [] x h = tt
  Own-absent (w ∷ ws) x h = (
    λ e. absurd (ground (arith, h, (eqb_iff w.id x.id).1 e)),
    Own-absent ws x (ground (arith, h)),
  )

  All-IsRow : (t : List Run) → UniqueIds t → All (IsRow t) t
  All-IsRow [] u = tt
  All-IsRow (y ∷ ys) u = (
    (
      (λ e. refl, Own-absent ys y u.0),
      λ (z : count_where (λ w. eqb w.id y.id) (y ∷ ys) ≡ 0). ground (arith, z, eqb_refl y.id),
    ),
    All-map _ _ ys (λ x h. later x h) (All-IsRow ys u.1),
  )
    where
      later : (x : Run) → IsRow ys x → IsRow (y ∷ ys) x
      later x (own, c) = (
        (λ e. absurd (c (rw e at u.0)), own),
        λ (z : count_where (λ w. eqb w.id x.id) (y ∷ ys) ≡ 0). c (ground (arith, z)),
      )

  module _ (t : List Run) where
    abbrev rows : List Run
    rows = sort (λ a b. leb a.id b.id) (select is_selected t)

    count-rows :
        (x : Run)
        → Own t x
        → count_where (λ w. eqb w.id x.id) rows
          ≡ (if is_selected x then count_where (λ w. eqb w.id x.id) t else 0)
    count-rows x own =
        count_where-sort (λ a b. leb a.id b.id) (λ w. eqb w.id x.id) (select is_selected t)
        ∙ count-selected t x own

    touched-settled : (x : Run) → IsRow t x → touched rows x ≡ settled x
    touched-settled x (own, c) = elim (Bool-cases (is_running x)) [
      | inr r ↦ rw r (touched-idle rows x r)
      | inl r ↦ elim (Bool-cases (is_bounded x)) [
        | inr b ↦ rw (r, b) (touched-absent rows x (rw (r, b) at (count-rows x own)))
        | inl b ↦
            let counted : count_where (λ w. eqb w.id x.id) rows
                ≡ count_where (λ w. eqb w.id x.id) t =
              rw (r, b) at (count-rows x own) in
            let own_rows : Own rows x = All-sort (λ a b. leb a.id b.id) _ _ (Own-select t x own) in
            elim (Bool-cases (too_old read now (read x.started_at))) [
              | inl o ↦
                  rw (r, b, o)
                    (touched-old rows x own_rows
                      (λ (z : count_where (λ w. eqb w.id x.id) rows ≡ 0). c (sym counted ∙ z)) r o)
              | inr o ↦ rw (r, b, o) (touched-young rows x own_rows o)
            ]
      ]
    ]

    map-settled : (xs : List Run) → All (IsRow t) xs → map (touched rows) xs ≡ map settled xs
    map-settled [] h = refl
    map-settled (x ∷ xs) h =
        rw (touched-settled x h.0) (ap (λ ys. settled x ∷ ys) (map-settled xs h.1))

  -- In a table with unique ids the reconcile marks as abandoned, with its reason, every row that is
  -- running, of a family check, and started at a time that parses and lies at least the bound back, and
  -- leaves every other row as it is, in place.
  pub runs-reconcile_stale :
      (r : Radar) → UniqueIds r.runs → (reconcile_stale_runs read now r).0.runs ≡ map settled r.runs
  unfolding reconcile_stale_runs
  runs-reconcile_stale r u =
      runs-sweep_stale (rows r.runs) r ∙ map-settled r.runs r.runs (All-IsRow r.runs u)
