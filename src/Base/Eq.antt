-- ===== src/Base/Eq.antt =====
-- Types whose values can be the keys of a dictionary: those with a test for equality.
use Prim.Native.Nat.{ℕ}
use Prim.Native.String.{String}
use mathlib.Core.Path.{◌≡◌}
use mathlib.Core.Logic.{◌↔◌}
use mathlib.Core.Bool.{Bool, true}
use text.Mathlib.Text.{◌==◌ as same_text}
use text.Mathlib.TextEquality.{eq_iff as same_text_iff}
use whatsapp_radar.Base.Tests.{eqb, eqb_iff}

pub record Key (K : Type 0) : Type 0 where
  pub is_same : K → K → Bool
  pub is_same_iff : (j k : K) → (is_same j k ≡ true) ↔ (j ≡ k)

-- Two keys name the same entry.
abbrev pub names : {K : Type 0} ⦃key : Key K⦄ → K → K → Bool
names ⦃key⦄ j k = key.is_same j k

instance abbrev pub row_id_key : Key ℕ
row_id_key = record { is_same = eqb; is_same_iff = eqb_iff }

instance abbrev pub text_key : Key String
text_key = record { is_same = same_text; is_same_iff = same_text_iff }
