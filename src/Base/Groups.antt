-- ===== src/Base/Groups.antt =====
-- `dict[K, list[B]]` in the order in which its keys were first written: the writes and the pops that
-- the program makes of it, and what they do to its content.
use whatsapp_radar.Base.Eq.{Key, names}
use whatsapp_radar.Base.Tests.{if◌then◌else◌, Bool-cases}
use whatsapp_radar.Base.Lists.{All, All-append, count_where, count_where-append}
use Prim.Native.Nat.{◌+◌}
use mathlib.Core.Path.{◌≡◌, refl}
use mathlib.Core.Logic.{inl, inr}
use mathlib.Core.Bool.{Bool, false}
use mathlib.Core.List.{List, [], ◌∷◌, ◌++◌}
use native.Mathlib.Omega.{arith}

abbrev pub Groups : Type 0 → Type 0 → Type 0
Groups K B = List (K × List B)

module _ {K : Type 0} ⦃e : Key K⦄ {B : Type 0} where
  -- `groups.setdefault(key, []).append(value)`
  unfoldable pub append_to : K → B → Groups K B → Groups K B
  append_to k b [] = (k, b ∷ []) ∷ []
  append_to k b ((j, bs) ∷ g) =
      if names j k then (j, bs ++ b ∷ []) ∷ g else (j, bs) ∷ append_to k b g

  -- `groups.pop(key, [])`: what it returns, and what it leaves.
  unfoldable pub popped : K → Groups K B → List B
  popped k [] = []
  popped k ((j, bs) ∷ g) = let rest = popped k g in if names j k then bs else rest

  unfoldable pub without : K → Groups K B → Groups K B
  without k [] = []
  without k ((j, bs) ∷ g) = let rest = without k g in if names j k then g else (j, bs) ∷ rest

  -- All blocks of the dictionary, group by group.
  abbrev pub flat : Groups K B → List B
  flat [] = []
  flat ((k, bs) ∷ g) = bs ++ flat g

  -- Every block satisfies `P` at the key of its group.
  abbrev pub AtKeys : (K → B → Type 0) → Groups K B → Type 0
  AtKeys P [] = Unit
  AtKeys P ((k, bs) ∷ g) = All (P k) bs × AtKeys P g

  pub count-append_to :
      (p : B → Bool) (k : K) (b : B) (g : Groups K B)
      → count_where p (flat (append_to k b g)) ≡ count_where p (b ∷ flat g)
  unfolding append_to
  count-append_to p k b [] = refl
  count-append_to p k b ((j, bs) ∷ g) = elim (Bool-cases (names j k)) [
    | inl t ↦ rw t (
        omega (
          arith,
          count_where-append p (bs ++ b ∷ []) (flat g),
          count_where-append p bs (b ∷ []),
          count_where-append p bs (flat g),
        ))
    | inr t ↦ rw t (
        omega (
          arith,
          count_where-append p bs (flat (append_to k b g)),
          count_where-append p bs (flat g),
          count-append_to p k b g,
        ))
  ]

  pub count-popped :
      (p : B → Bool) (k : K) (g : Groups K B)
      → count_where p (popped k g) + count_where p (flat (without k g)) ≡ count_where p (flat g)
  unfolding popped without
  count-popped p k [] = refl
  count-popped p k ((j, bs) ∷ g) = elim (Bool-cases (names j k)) [
    | inl t ↦ rw t (omega (arith, count_where-append p bs (flat g)))
    | inr t ↦ rw t (
        omega (
          arith,
          count_where-append p bs (flat (without k g)),
          count_where-append p bs (flat g),
          count-popped p k g,
        ))
  ]

  pub AtKeys-append_to :
      (P : K → B → Type 0) (k : K) (b : B) (g : Groups K B)
      → P k b
      → AtKeys P g
      → AtKeys P (append_to k b g)
  unfolding append_to
  AtKeys-append_to P k b [] h a = ((h, tt), tt)
  AtKeys-append_to P k b ((j, bs) ∷ g) h a = elim (Bool-cases (names j k)) [
    | inl t ↦ rw t (All-append (P j) bs (b ∷ []) a.0 (rw ((e.is_same_iff j k).0 t) h, tt), a.1)
    | inr t ↦ rw t (a.0, AtKeys-append_to P k b g h a.1)
  ]

  pub AtKeys-without :
      (P : K → B → Type 0) (k : K) (g : Groups K B) → AtKeys P g → AtKeys P (without k g)
  unfolding without
  AtKeys-without P k [] a = tt
  AtKeys-without P k ((j, bs) ∷ g) a = elim (Bool-cases (names j k)) [
    | inl t ↦ rw t a.1
    | inr t ↦ rw t (a.0, AtKeys-without P k g a.1)
  ]

  pub All-popped :
      (P : K → B → Type 0) (k : K) (g : Groups K B) → AtKeys P g → All (P k) (popped k g)
  unfolding popped
  All-popped P k [] a = tt
  All-popped P k ((j, bs) ∷ g) a = elim (Bool-cases (names j k)) [
    | inl t ↦ rw t (rw ((e.is_same_iff j k).0 t) at a.0)
    | inr t ↦ rw t (All-popped P k g a.1)
  ]

  -- No group has the key `k`.
  abbrev pub Lacks : K → Groups K B → Type 0
  Lacks k [] = Unit
  Lacks k ((j, bs) ∷ g) = ((names j k) ≡ false) × Lacks k g

  abbrev pub IsDistinct : Groups K B → Type 0
  IsDistinct [] = Unit
  IsDistinct ((j, bs) ∷ g) = Lacks j g × IsDistinct g

  Lacks-append_to :
      (k j : K) (b : B) (g : Groups K B)
      → (names j k) ≡ false
      → Lacks k g
      → Lacks k (append_to j b g)
  unfolding append_to
  Lacks-append_to k j b [] t h = (t, tt)
  Lacks-append_to k j b ((i, bs) ∷ g) u h = elim (Bool-cases (names i j)) [
    | inl f ↦ rw f h
    | inr f ↦ rw f (h.0, Lacks-append_to k j b g u h.1)
  ]

  pub IsDistinct-append_to :
      (k : K) (b : B) (g : Groups K B) → IsDistinct g → IsDistinct (append_to k b g)
  unfolding append_to
  IsDistinct-append_to k b [] h = (tt, tt)
  IsDistinct-append_to k b ((j, bs) ∷ g) h = elim (Bool-cases (names j k)) [
    | inl t ↦ rw t h
    | inr t ↦ rw t (
      Lacks-append_to j k b g (ground (arith, e.is_same_iff k j, e.is_same_iff j k)) h.0,
      IsDistinct-append_to k b g h.1,
    )
  ]

  Lacks-without : (k j : K) (g : Groups K B) → Lacks k g → Lacks k (without j g)
  unfolding without
  Lacks-without k j [] h = tt
  Lacks-without k j ((i, bs) ∷ g) h = elim (Bool-cases (names i j)) [
    | inl t ↦ rw t h.1
    | inr t ↦ rw t (h.0, Lacks-without k j g h.1)
  ]

  pub IsDistinct-without : (k : K) (g : Groups K B) → IsDistinct g → IsDistinct (without k g)
  unfolding without
  IsDistinct-without k [] h = tt
  IsDistinct-without k ((j, bs) ∷ g) h = elim (Bool-cases (names j k)) [
    | inl t ↦ rw t h.1
    | inr t ↦ rw t (Lacks-without j k g h.0, IsDistinct-without k g h.1)
  ]

  pub Lacks-without_self : (k : K) (g : Groups K B) → IsDistinct g → Lacks k (without k g)
  unfolding without
  Lacks-without_self k [] h = tt
  Lacks-without_self k ((j, bs) ∷ g) h = elim (Bool-cases (names j k)) [
    | inl t ↦ rw t (rw ((e.is_same_iff j k).0 t) at h.0)
    | inr t ↦ rw t (t, Lacks-without_self k g h.1)
  ]

  pub popped-append_to :
      (k j : K) (b : B) (g : Groups K B)
      → popped k (append_to j b g) ≡ (if names j k then popped k g ++ b ∷ [] else popped k g)
  unfolding popped append_to
  popped-append_to k j b [] = refl
  popped-append_to k j b ((i, bs) ∷ g) =
      ground
        (arith, e.is_same_iff i j, e.is_same_iff i k, e.is_same_iff j k, popped-append_to k j b g)

  pub popped-without_ne :
      (k j : K) (g : Groups K B) → (names j k) ≡ false → popped k (without j g) ≡ popped k g
  unfolding popped without
  popped-without_ne k j [] h = refl
  popped-without_ne k j ((i, bs) ∷ g) h =
      ground
        (arith, e.is_same_iff i j, e.is_same_iff i k, e.is_same_iff j k, popped-without_ne k j g)
