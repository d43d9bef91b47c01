-- ===== src/Family/Addresses.antt =====
-- src/family/rules.py: the loose match of two addresses.
use Prim.Native.Char.{code}
use whatsapp_radar.Base.{
  ◌<◌, String, ◌≡◌, refl, Bool, true, false, ◌&&◌, ◌||◌, List, [], ◌∷◌, arith, ◌==◌, eq_iff, ltb,
  length, if◌then◌else◌,
}
use whatsapp_radar.Base.Text.{join}
use whatsapp_radar.Family.Events.{Words}

module _ (w : Words) where
  -- `"".join(ch if ch.isalnum() or ch.isspace() else " " for ch in text)`
  unfoldable pub clean : String → String
  clean String.[] = ""
  clean (String.◌∷◌ c s) =
      let rest = clean s in if w.is_kept (code c) then String.◌∷◌ c rest else String.◌∷◌ " " rest

  unfoldable pub norm_address : String → String
  unfolding clean
  norm_address value = join " " (w.split (clean (w.lower value)))

-- `longer[: len(shorter)] == shorter`
unfoldable pub starts : List String → List String → Bool
starts [] ys = true
starts (x ∷ xs) [] = false
starts (x ∷ xs) (y ∷ ys) = x == y && starts xs ys

-- `any(longer[i : i + width] == shorter for i in …)`
unfoldable pub occurs : List String → List String → Bool
unfolding starts
occurs xs [] = starts xs []
occurs xs (y ∷ ys) = starts xs (y ∷ ys) || occurs xs ys

-- `sorted((a, b), key=len)`, which is stable, and then the search.
unfoldable pub match_tokens : List String → List String → Bool
unfolding occurs
match_tokens a b = if ltb (length b) (length a) then occurs b a else occurs a b

unfoldable pub same_address : Words → String → String → Bool
unfolding norm_address match_tokens
same_address w a b =
    if norm_address w a == "" || norm_address w b == ""
    then false
    else match_tokens (w.split (norm_address w a)) (w.split (norm_address w b))

-- A list does not start with a longer one, nor does a longer one occur in it.
starts_short : (xs ys : List String) → length ys < length xs → starts xs ys ≡ false
unfolding starts
starts_short [] ys h = absurd (omega (arith, h))
starts_short (x ∷ xs) [] h = refl
starts_short (x ∷ xs) (y ∷ ys) h = ground (arith, starts_short xs ys)

occurs_short : (xs ys : List String) → length ys < length xs → occurs xs ys ≡ false
unfolding occurs
occurs_short xs [] h = starts_short xs [] h
occurs_short xs (y ∷ ys) h = ground (arith, starts_short xs (y ∷ ys), occurs_short xs ys)

starts_comm : (xs ys : List String) → length xs ≡ length ys → starts xs ys ≡ starts ys xs
unfolding starts
starts_comm [] [] h = refl
starts_comm [] (y ∷ ys) h = absurd (omega (arith, h))
starts_comm (x ∷ xs) [] h = absurd (omega (arith, h))
starts_comm (x ∷ xs) (y ∷ ys) h = ground (arith, starts_comm xs ys, eq_iff x y, eq_iff y x)

-- Between lists of one length, to occur is to be the start.
occurs-starts : (xs ys : List String) → length xs ≡ length ys → occurs xs ys ≡ starts xs ys
unfolding occurs
occurs-starts xs [] h = refl
occurs-starts xs (y ∷ ys) h = ground (arith, occurs_short xs ys)

match_tokens_comm : (xs ys : List String) → match_tokens xs ys ≡ match_tokens ys xs
unfolding match_tokens
match_tokens_comm xs ys =
    ground (arith, occurs-starts xs ys, occurs-starts ys xs, starts_comm xs ys)

-- Whether two addresses are of one place does not depend on their order, although the longer one is
-- searched for the shorter one.
pub same_address_comm : (w : Words) (a b : String) → same_address w a b ≡ same_address w b a
unfolding same_address
same_address_comm w a b =
    ground (arith, match_tokens_comm (w.split (norm_address w a)) (w.split (norm_address w b)))
