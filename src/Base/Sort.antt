-- ===== src/Base/Sort.antt =====
-- `list.sort(key=…)` and SQL's `ORDER BY`: a stable sort, by insertion, over a Boolean order.
use mathlib.Core.Path.{◌≡◌, refl}
use mathlib.Core.Logic.{◌⊎◌, inl, inr}
use mathlib.Core.Bool.{Bool, true}
use mathlib.Core.List.{List, [], ◌∷◌}
use native.Mathlib.Omega.{arith}
use whatsapp_radar.Base.Tests.{if◌then◌else◌, Bool-cases}
use whatsapp_radar.Base.Lists.{All, All-map, count_where}

module _ {ℓ} {A : Type ℓ} (le : A → A → Bool) where
  -- The new element came before those of the list, so it stays in front of its equals.
  unfoldable pub insert : A → List A → List A
  insert a [] = a ∷ []
  insert a (x ∷ xs) = let rest = insert a xs in if le a x then a ∷ x ∷ xs else x ∷ rest

  unfoldable pub sort : List A → List A
  unfolding insert
  sort [] = []
  sort (x ∷ xs) = insert x (sort xs)

  pub All-insert {κ} : (P : A → Type κ) (a : A) (xs : List A) → P a → All P xs → All P (insert a xs)
  unfolding insert
  All-insert P a [] p h = (p, h)
  All-insert P a (x ∷ xs) p h = elim (Bool-cases (le a x)) [
    | inl e ↦ rw e (p, h)
    | inr e ↦ rw e (h.0, All-insert P a xs p h.1)
  ]

  pub All-sort {κ} : (P : A → Type κ) (xs : List A) → All P xs → All P (sort xs)
  unfolding sort
  All-sort P [] h = h
  All-sort P (x ∷ xs) h = All-insert P x (sort xs) h.0 (All-sort P xs h.1)

  count_where-insert :
      (p : A → Bool) (a : A) (xs : List A) → count_where p (insert a xs) ≡ count_where p (a ∷ xs)
  unfolding insert
  count_where-insert p a [] = refl
  count_where-insert p a (x ∷ xs) = elim (Bool-cases (le a x)) [
    | inl e ↦ rw e refl
    | inr e ↦ rw e (omega (arith, count_where-insert p a xs))
  ]

  pub count_where-sort : (p : A → Bool) (xs : List A) → count_where p (sort xs) ≡ count_where p xs
  unfolding sort
  count_where-sort p [] = refl
  count_where-sort p (x ∷ xs) =
      omega (arith, count_where-insert p x (sort xs), count_where-sort p xs)

  -- Every element comes before all that follow it.
  abbrev pub IsSorted : List A → Type ℓ
  IsSorted [] = Unit
  IsSorted (x ∷ xs) = All (λ y. le x y ≡ true) xs × IsSorted xs

  module _ (total : (a b : A) → (le a b ≡ true) ⊎ (le b a ≡ true))
      (trans : (a b c : A) → le a b ≡ true → le b c ≡ true → le a c ≡ true) where
    insert-IsSorted : (a : A) (xs : List A) → IsSorted xs → IsSorted (insert a xs)
    unfolding insert
    insert-IsSorted a [] h = (tt, tt)
    insert-IsSorted a (x ∷ xs) h = elim (Bool-cases (le a x)) [
      | inl e ↦
          rw e
            ((e, All-map (λ y. le x y ≡ true) (λ y. le a y ≡ true) xs (λ y. trans a x y e) h.0), h)
      | inr e ↦ rw e (
        All-insert (λ y. le x y ≡ true) a xs (ground (arith, total a x)) h.0,
        insert-IsSorted a xs h.1,
      )
    ]

    pub sort-IsSorted : (xs : List A) → IsSorted (sort xs)
    unfolding sort
    sort-IsSorted [] = tt
    sort-IsSorted (x ∷ xs) = insert-IsSorted x (sort xs) (sort-IsSorted xs)
