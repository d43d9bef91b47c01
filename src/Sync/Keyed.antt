-- ===== src/Sync/Keyed.antt =====
-- src/db/chats.py: the primary key of the chats, through the writes of an ingest.
use whatsapp_radar.Base.{
  ℕ, suc, ◌≤◌, ◌≡◌, refl, sym, subst, inl, inr, Bool, true, false, none, some, List, [], ◌∷◌, ◌++◌,
  arith, eqb, eqb_iff, find, update_where, All, All-append, Bool-cases, if◌then◌else◌,
}
use whatsapp_radar.Store.Rows.{Chat, Db}
use whatsapp_radar.Store.Chats.{has_id}

abbrev pub DistinctIds : List Chat → Type 0
DistinctIds [] = Unit
DistinctIds (x ∷ xs) = All (λ y. eqb y.id x.id ≡ false) xs × DistinctIds xs

-- The ids of the chats are distinct, and none is past the last one given.
abbrev pub IsKeyed : Db → Type 0
IsKeyed db = DistinctIds db.chats × All (λ x. x.id ≤ db.last_chat_id) db.chats

find-All :
    (P : Chat → Type 0) (q : Chat → Bool) (xs : List Chat) (row : Chat)
    → All P xs
    → find q xs ≡ some row
    → P row
find-All P q [] row a f = cc
find-All P q (x ∷ xs) row a f = elim (Bool-cases (q x)) [
  | inl t ↦ let f' : some x ≡ some row = rw t at f in let same : x ≡ row = cc in subst P same a.0
  | inr t ↦ find-All P q xs row a.1 (rw t at f)
]

apart : (i : ℕ) (r : Chat) → eqb r.id i ≡ false → eqb i r.id ≡ false
apart i r h = ground arith

-- A row that any test finds is the row of its id.
pub find-has_id :
    (q : Chat → Bool) (xs : List Chat) (row : Chat)
    → DistinctIds xs
    → find q xs ≡ some row
    → (find (has_id row.id) xs ≡ some row) × (q row ≡ true)
find-has_id q [] row d f = cc
find-has_id q (x ∷ xs) row d f = elim (Bool-cases (q x)) [
  | inl t ↦
      let f' : some x ≡ some row = rw t at f in
      let same : x ≡ row = cc in rw (sym same) (rw (has_id, (eqb_iff x.id x.id).1 refl) refl, t)
  | inr t ↦
      let rest = find-has_id q xs row d.1 (rw t at f) in
      (
        rw (apart x.id row (find-All (λ y. eqb y.id x.id ≡ false) q xs row d.0 (rw t at f))) rest.0,
        rest.1,
      )
]

module _ (p : Chat → Bool) (f : Chat → Chat) (h : (x : Chat) → (f x).id ≡ x.id) where
  All-update_where :
      (P : Chat → Type 0) (xs : List Chat)
      → ((x : Chat) → P x → P (f x))
      → All P xs
      → All P (update_where p f xs)
  All-update_where P [] g a = tt
  All-update_where P (x ∷ xs) g a = elim (Bool-cases (p x)) [
    | inl t ↦ rw t (g x a.0, All-update_where P xs g a.1)
    | inr t ↦ rw t (a.0, All-update_where P xs g a.1)
  ]

  pub DistinctIds-update_where :
      (xs : List Chat) → DistinctIds xs → DistinctIds (update_where p f xs)
  DistinctIds-update_where [] d = tt
  DistinctIds-update_where (x ∷ xs) d = elim (Bool-cases (p x)) [
    | inl t ↦ rw t (
      rw (h x) (All-update_where (λ y. eqb y.id x.id ≡ false) xs (λ y e. rw (h y) e) d.0),
      DistinctIds-update_where xs d.1,
    )
    | inr t ↦ rw t (
      All-update_where (λ y. eqb y.id x.id ≡ false) xs (λ y e. rw (h y) e) d.0,
      DistinctIds-update_where xs d.1,
    )
  ]

  pub below-update_where :
      (n : ℕ) (xs : List Chat) → All (λ x. x.id ≤ n) xs → All (λ x. x.id ≤ n) (update_where p f xs)
  below-update_where n xs a = All-update_where (λ x. x.id ≤ n) xs (λ x e. rw (h x) e) a

pub DistinctIds-append :
    (xs : List Chat) (c : Chat) (n : ℕ)
    → c.id ≡ suc n
    → All (λ x. x.id ≤ n) xs
    → DistinctIds xs
    → DistinctIds (xs ++ c ∷ [])
DistinctIds-append [] c n e a d = (tt, tt)
DistinctIds-append (x ∷ xs) c n e a d = (
  All-append (λ y. eqb y.id x.id ≡ false) xs (c ∷ []) d.0 (ground (arith, e, a.0), tt),
  DistinctIds-append xs c n e a.1 d.1,
)

-- The id past the last one has no row.
pub find-past : (n : ℕ) (xs : List Chat) → All (λ x. x.id ≤ n) xs → find (has_id (suc n)) xs ≡ none
find-past n [] a = refl
find-past n (x ∷ xs) a =
    let other : eqb x.id (suc n) ≡ false = ground (arith, a.0) in rw other (find-past n xs a.1)

-- What a test finds after an update that it does not see is the updated row.
pub find-update_where :
    (q p : Chat → Bool) (f : Chat → Chat) (xs : List Chat) (row : Chat)
    → ((x : Chat) → q (f x) ≡ q x)
    → find q xs ≡ some row
    → find q (update_where p f xs) ≡ some (if p row then f row else row)
find-update_where q p f [] row h e = cc
find-update_where q p f (x ∷ xs) row h e = elim (Bool-cases (q x)) [
  | inl t ↦
      let e' : some x ≡ some row = rw t at e in
      let same : x ≡ row = cc in rw (sym same) (go (p x) t)
  | inr t ↦ skip (p x) t (find-update_where q p f xs row h (rw t at e))
]
  where
    go :
        (b : Bool)
        → q x ≡ true
        → find q ((if b then f x else x) ∷ update_where p f xs) ≡ some (if b then f x else x)
    go true t = rw (h x, t) refl
    go false t = rw t refl

    skip :
        (b : Bool)
        → q x ≡ false
        → find q (update_where p f xs) ≡ some (if p row then f row else row)
        → find q ((if b then f x else x) ∷ update_where p f xs)
          ≡ some (if p row then f row else row)
    skip true t r = rw (h x, t) r
    skip false t r = rw t r

pub find-append :
    (q : Chat → Bool) (xs ys : List Chat) (row : Chat)
    → find q xs ≡ some row
    → find q (xs ++ ys) ≡ some row
find-append q [] ys row e = cc
find-append q (x ∷ xs) ys row e = elim (Bool-cases (q x)) [
  | inl t ↦ rw t (rw t at e)
  | inr t ↦ rw t (find-append q xs ys row (rw t at e))
]

pub find-last :
    (q : Chat → Bool) (xs : List Chat) (c : Chat)
    → find q xs ≡ none
    → q c ≡ true
    → find q (xs ++ c ∷ []) ≡ some c
find-last q [] c e t = rw t refl
find-last q (x ∷ xs) c e t = elim (Bool-cases (q x)) [
  | inl u ↦ let no_row : some x ≡ none = rw u at e in cc
  | inr u ↦ rw u (find-last q xs c (rw u at e) t)
]
