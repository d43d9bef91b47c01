-- ===== src/TravelBlocks/Reconcile/Keys.antt =====
-- The dictionary that `_group_existing` builds: its keys are distinct, and each holds its blocks.
use whatsapp_radar.Base.{
  String, ◌≡◌, refl, sym, ap, ◌∙◌, inl, inr, true, false, List, [], ◌∷◌, ◌++◌, ◌==◌, eq_iff,
  Bool-cases, select, append_assoc, append-nil,
}
use whatsapp_radar.TravelBlocks.Blocks.{ExistingBlock, block_key}
use whatsapp_radar.TravelBlocks.Reconcile.{ProtectedBlock, Groups, is_in, group_existing}
use whatsapp_radar.Base.Eq.{text_key}
use whatsapp_radar.Base.Groups.{
  popped, append_to, AtKeys, AtKeys-append_to, IsDistinct, IsDistinct-append_to, popped-append_to,
}

pub IsDistinct-group_existing :
    (keys : List String) (g : Groups) (out : List ProtectedBlock) (bs : List ExistingBlock)
    → IsDistinct g
    → IsDistinct (group_existing keys g out bs).0
unfolding group_existing
IsDistinct-group_existing keys g out [] h = h
IsDistinct-group_existing keys g out (b ∷ bs) h = elim (Bool-cases (is_in (block_key b) keys)) [
  | inl e ↦ rw e (IsDistinct-group_existing keys g _ bs h)
  | inr e ↦ rw e (
      IsDistinct-group_existing keys (append_to (block_key b) b g) out bs
        (IsDistinct-append_to (block_key b) b g h))
]

-- A group holds blocks of its key, and no unplanned key has a group.
abbrev pub Placed : List String → String → ExistingBlock → Type 0
Placed keys k b = (block_key b ≡ k) × (is_in k keys ≡ false)

pub AtKeys-group_existing :
    (keys : List String) (g : Groups) (out : List ProtectedBlock) (bs : List ExistingBlock)
    → AtKeys (Placed keys) g
    → AtKeys (Placed keys) (group_existing keys g out bs).0
unfolding group_existing
AtKeys-group_existing keys g out [] h = h
AtKeys-group_existing keys g out (b ∷ bs) h = elim (Bool-cases (is_in (block_key b) keys)) [
  | inl e ↦ rw e (AtKeys-group_existing keys g _ bs h)
  | inr e ↦ rw e (
      AtKeys-group_existing keys (append_to (block_key b) b g) out bs
        (AtKeys-append_to (Placed keys) (block_key b) b g (refl, e) h))
]

-- The blocks of one leg.
abbrev pub blocks_of : String → List ExistingBlock → List ExistingBlock
blocks_of k = select (λ b. block_key b == k)

-- A planned key finds in the dictionary exactly its blocks, in the order of the listing.
pub popped-group_existing :
    (keys : List String) (k : String) (g : Groups) (out : List ProtectedBlock)
    (bs : List ExistingBlock)
    → is_in k keys ≡ false
    → popped k (group_existing keys g out bs).0 ≡ popped k g ++ blocks_of k bs
unfolding group_existing
popped-group_existing keys k g out [] h = sym (append-nil (popped k g))
popped-group_existing keys k g out (b ∷ bs) h = elim (Bool-cases (is_in (block_key b) keys)) [
  | inl e ↦
      let other : (block_key b == k) ≡ false = other_key b e in
      rw (e, other) (popped-group_existing keys k g _ bs h)
  | inr e ↦ elim (Bool-cases (block_key b == k)) [
    | inl f ↦
        rw (e, f)
          (popped-group_existing keys k (append_to (block_key b) b g) out bs h
            ∙ rw (popped-append_to, f) (append_assoc (popped k g) (b ∷ []) (blocks_of k bs)))
    | inr f ↦
        rw (e, f)
          (popped-group_existing keys k (append_to (block_key b) b g) out bs h
            ∙ rw (popped-append_to, f) refl)
  ]
]
  where
    other_key : (c : ExistingBlock) → is_in (block_key c) keys ≡ true → (block_key c == k) ≡ false
    other_key c e = elim (Bool-cases (block_key c == k)) [
      | inl f ↦ absurd (cc (ap (λ x. is_in x keys) ((eq_iff (block_key c) k).0 f)))
      | inr f ↦ f
    ]
