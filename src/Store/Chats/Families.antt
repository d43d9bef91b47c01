-- ===== src/Store/Chats/Families.antt =====
-- Families have depth one: a chat that is linked under a parent has no children of its own.
use whatsapp_radar.Base.{
  ℕ, ◌≤◌, ◌≡◌, ◌≢◌, refl, subst, ap, inl, inr, Option, none, some, List, [], ◌∷◌, arith, eqb,
  eqb_iff, find, update_where, count_where, All, All-map, Bool-cases, Option-cases,
}
use whatsapp_radar.Store.Rows.{Chat, Db}
use whatsapp_radar.Store.Chats.{
  has_id, is_child_of, get_chat, child_count, link_under, link_chats, linked, self_link,
  parent_is_child, child_has_children, refused, LinkResult,
}

-- With a parent, `n` is zero.
abbrev pub ZeroUnder : ℕ → Option ℕ → Type 0
ZeroUnder n none = Unit
ZeroUnder n (some p) = n ≡ 0

-- A chat with a parent is nobody's parent.
abbrev pub HasNoGrandchildren : List Chat → Chat → Type 0
HasNoGrandchildren chats c = ZeroUnder (count_where (is_child_of c.id) chats) c.parent_chat_id

ZeroUnder-elim : (n p : ℕ) (o : Option ℕ) → o ≡ some p → ZeroUnder n o → n ≡ 0
ZeroUnder-elim n p none e z = cc
ZeroUnder-elim n p (some q) e z = z

ZeroUnder-intro : (n : ℕ) (o : Option ℕ) → ((p : ℕ) → o ≡ some p → n ≡ 0) → ZeroUnder n o
ZeroUnder-intro n none f = tt
ZeroUnder-intro n (some p) f = f p refl

pub record IsFlat (db : Db) : Type 0 where
  -- The primary key.
  pub unique : (i : ℕ) → count_where (has_id i) db.chats ≤ 1
  pub flat : All (HasNoGrandchildren db.chats) db.chats

link_row : ℕ → Chat → Chat
link_row parent c = record c { parent_chat_id = some parent }

count_ids :
    (i child parent : ℕ) (cs : List Chat)
    → count_where (has_id i) (update_where (has_id child) (link_row parent) cs)
      ≡ count_where (has_id i) cs
unfolding link_row
count_ids i child parent [] = refl
count_ids i child parent (c ∷ cs) = ground (arith, count_ids i child parent cs)

count_children :
    (q child parent : ℕ) (cs : List Chat)
    → q ≢ parent
    → count_where (is_child_of q) (update_where (has_id child) (link_row parent) cs)
      ≤ count_where (is_child_of q) cs
unfolding link_row
count_children q child parent [] h = omega arith
count_children q child parent (c ∷ cs) h = ground (arith, count_children q child parent cs h)

-- With the key unique, every row of an id is the row that `get_chat` finds.
absent_ids : (i : ℕ) (cs : List Chat) → count_where (has_id i) cs ≡ 0 → All (λ c. c.id ≢ i) cs
absent_ids i [] h = tt
absent_ids i (c ∷ cs) h = (ground (arith, eqb_iff c.id i), absent_ids i cs (ground arith))

only_row :
    (i : ℕ) (cs : List Chat) (row : Chat)
    → count_where (has_id i) cs ≤ 1
    → find (has_id i) cs ≡ some row
    → row.parent_chat_id ≡ none
    → All (λ c. c.id ≡ i → c.parent_chat_id ≡ none) cs
only_row i [] row u f n = tt
only_row i (c ∷ cs) row u f n = elim (Bool-cases (has_id i c)) [
  | inl e ↦
      let same : some c ≡ some row = rw e at f in
      let alone : count_where (has_id i) cs ≡ 0 = ground arith in
      (λ _. cc, All-map _ _ cs (λ x h k. absurd (h k)) (absent_ids i cs alone))
  | inr e ↦ (λ k. ground (arith, eqb_iff c.id i), only_row i cs row (ground arith) (rw e at f) n)
]

module _ (child parent : ℕ) (chats : List Chat) (apart : child ≢ parent)
    (childless : count_where (is_child_of child) chats ≡ 0) where
  abbrev after : List Chat
  after = update_where (has_id child) (link_row parent) chats

  linked_rows :
      (cs : List Chat)
      → All (λ c. c.id ≡ parent → c.parent_chat_id ≡ none) cs
      → All (HasNoGrandchildren chats) cs
      → All (HasNoGrandchildren after) (update_where (has_id child) (link_row parent) cs)
  unfolding link_row
  linked_rows [] a h = tt
  linked_rows (c ∷ cs) a h = elim (Bool-cases (has_id child c)) [
    | inl e ↦ rw e (own ((eqb_iff c.id child).0 e), linked_rows cs a.1 h.1)
    | inr e ↦ rw e (
      ZeroUnder-intro _ c.parent_chat_id (λ p f. other p f (λ (k : c.id ≡ parent). cc (a.0 k))),
      linked_rows cs a.1 h.1,
    )
  ]
    where
      own : c.id ≡ child → count_where (is_child_of c.id) after ≡ 0
      own e = rw e (omega (arith, count_children child child parent chats apart))

      other :
          (p : ℕ)
          → c.parent_chat_id ≡ some p
          → c.id ≢ parent
          → count_where (is_child_of c.id) after ≡ 0
      other p f ne = omega (
        arith,
        count_children c.id child parent chats ne,
        ZeroUnder-elim _ p c.parent_chat_id f h.0,
      )

-- A link that is accepted keeps families flat, and keeps the ids of the chats unique.
pub link-IsFlat :
    (child parent : ℕ) (db db' : Db)
    → IsFlat db
    → link_chats child parent db ≡ linked db'
    → IsFlat db'
unfolding link_chats link_row
link-IsFlat child parent db db' v e = elim (Bool-cases (eqb child parent)) [
  | inl t ↦ let no_link : refused self_link ≡ linked db' = rw t at e in cc
  | inr t ↦ go (get_chat db parent) refl (ground (arith, eqb_iff child parent)) (rw t at e)
]
  where
    written : LinkResult → Db
    written (linked d) = d
    written (refused r) = db

    relinked :
        (row : Chat)
        → get_chat db parent ≡ some row
        → child ≢ parent
        → row.parent_chat_id ≡ none
        → child_count db child ≡ 0
        → IsFlat (record db { chats = update_where (has_id child) (link_row parent) db.chats })
    relinked row f apart n z = record {
      unique = λ i. omega (arith, count_ids i child parent db.chats, v.unique i);
      flat =
          linked_rows child parent db.chats apart z db.chats
            (only_row parent db.chats row (v.unique parent) f n) v.flat;
    }

    go :
        (o : Option Chat)
        → get_chat db parent ≡ o
        → child ≢ parent
        → link_under child parent db o ≡ linked db'
        → IsFlat db'
    go none f apart l = cc
    go (some row) f apart l = elim (Option-cases row.parent_chat_id) [
      | inr (p, n) ↦ let no_link : refused parent_is_child ≡ linked db' = rw n at l in cc
      | inl n ↦ elim (Bool-cases (eqb (child_count db child) 0)) [
        | inl z ↦
            let same : record db { chats = update_where (has_id child) (link_row parent) db.chats }
                ≡ db' =
              ap written (rw (n, z) at l) in
            subst IsFlat same (relinked row f apart n ((eqb_iff (child_count db child) 0).0 z))
        | inr z ↦ let no_link : refused child_has_children ≡ linked db' = rw (n, z) at l in cc
      ]
    ]
