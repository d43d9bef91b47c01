-- ===== src/Base/TextOrder.antt =====
-- The order of texts by code point: Python's `<=` on `str`, and SQLite's BINARY collation, whose
-- bytewise order of UTF-8 is the same.
use Prim.Native.Char.{code}
use Prim.Native.String.{String, [], ◌∷◌}
use mathlib.Core.Path.{◌≡◌, refl}
use mathlib.Core.Logic.{◌⊎◌, inl, inr}
use mathlib.Core.Bool.{Bool, true, false}
use native.Mathlib.Omega.{arith}
use whatsapp_radar.Base.Tests.{ltb, eqb, if◌then◌else◌}

unfoldable pub leb_text : String → String → Bool
leb_text [] t = true
leb_text (c ∷ s) [] = false
leb_text (c ∷ s) (d ∷ t) =
    let rest = leb_text s t in
    if ltb (code c) (code d) then true else if eqb (code c) (code d) then rest else false

pub leb_text_total : (s t : String) → (leb_text s t ≡ true) ⊎ (leb_text t s ≡ true)
unfolding leb_text
leb_text_total [] t = inl refl
leb_text_total (c ∷ s) [] = inr refl
leb_text_total (c ∷ s) (d ∷ t) = ground (arith, leb_text_total s t)

pub leb_text_refl : (s : String) → leb_text s s ≡ true
unfolding leb_text
leb_text_refl [] = refl
leb_text_refl (c ∷ s) = ground (arith, leb_text_refl s)

pub leb_text_trans :
    (s t u : String) → leb_text s t ≡ true → leb_text t u ≡ true → leb_text s u ≡ true
unfolding leb_text
leb_text_trans [] t u h k = refl
leb_text_trans (c ∷ s) [] u h k = ground arith
leb_text_trans (c ∷ s) (d ∷ t) [] h k = ground arith
leb_text_trans (c ∷ s) (d ∷ t) (e ∷ u) h k = ground (arith, leb_text_trans s t u)

iso_moments : leb_text "2026-01-09T08:00:00+00:00" "2026-01-10T07:00:00+00:00" ≡ true
unfolding leb_text
iso_moments = refl
