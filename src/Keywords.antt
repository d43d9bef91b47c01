-- ===== src/Keywords.antt =====
-- src/analysis/keywords.py: the keyword prefilter. Loading the asset is file I/O, so the rules of a
-- source come as an argument, and so does `normalize` (NFKD without combining marks, lowered).
pub mod Signal
use whatsapp_radar.Base.{
  ℕ, String, ◌≡◌, refl, Bool, true, false, not, ◌||◌, Option, none, some, List, [], ◌∷◌, ◌++◌, map,
  ◌==◌, any, select, if◌then◌else◌,
}
use text.Mathlib.Text.{starts_with}
use whatsapp_radar.Store.Rows.{StoredMessage}

pub record KeywordRule : Type 0 where
  pub bucket : String
  pub root : String

pub record KeywordSignal : Type 0 where
  pub matched : Bool
  pub roots : List String
  pub buckets : List String

-- `root in text`
unfoldable pub is_infix : String → String → Bool
is_infix root String.[] = starts_with String.[] root
is_infix root (String.◌∷◌ c s) = starts_with (String.◌∷◌ c s) root || is_infix root s

-- `seen.setdefault(key, None)` on a dictionary that is read as the list of its keys.
abbrev pub note : String → List String → List String
note k seen = if any (λ j. j == k) seen then seen else seen ++ k ∷ []

module _ (normalize : String → String) (rules_of : String → List KeywordRule) where
  unfoldable pub matched_rules : Option String → String → List KeywordRule
  unfolding is_infix
  matched_rules none source = []
  matched_rules (some text) source =
      if text == "" then [] else select (λ r. is_infix r.root (normalize text)) (rules_of source)

  unfoldable pub note_rules :
      List KeywordRule → List String × List String → List String × List String
  note_rules [] seen = seen
  note_rules (r ∷ rs) seen = note_rules rs (note r.root seen.0, note r.bucket seen.1)

  unfoldable pub note_messages :
      String → List StoredMessage → List String × List String → List String × List String
  unfolding matched_rules note_rules
  note_messages source [] seen = seen
  note_messages source (m ∷ ms) seen =
      note_messages source ms (note_rules (matched_rules m.text source) seen)

  unfoldable pub has_actionable_signal : List StoredMessage → String → KeywordSignal
  unfolding note_messages
  has_actionable_signal delta source =
      let seen = note_messages source delta ([], []) in
      record {
        matched = elim seen.0 [ [] ↦ false | r ∷ rs ↦ true ];
        roots = seen.0;
        buckets = seen.1;
      }
