-- ===== src/Contract.antt =====
-- src/analysis/contract.py: the strict contract for what the classifier answers.
pub mod Accepted
use Prim.Native.String.{◌++◌}
use whatsapp_radar.Base.{
  ℕ, String, Bool, true, false, not, ◌&&◌, ◌||◌, Option, none, some, List, [], ◌∷◌, ◌==◌, leb,
  is_none, if◌then◌else◌,
}
use whatsapp_radar.Base.Json.{
  Value, Items, Fields, null, bool, num, str, arr, obj, nil, cons, end, field, get,
}

pub record AnalysisResult : Type 0 where
  pub action_required : Bool
  pub priority : Option String
  pub summary : Option String
  pub suggested_next_action : Option String
  pub deadline : Option String
  -- In thousandths.
  pub confidence : Option ℕ
  pub evidence_message_ids : List String
  pub deadline_date : Option String
  pub child : Option String
  pub task_category : Option String
  pub prep_complexity : Option String

-- A value, or the message of the `ContractError` that was raised.
pub data Parsed {ℓ} (A : Type ℓ) : Type ℓ where
  ok : A → Parsed A
  err : String → Parsed A

-- What comes after a check goes on only if it has not raised.
infixl 5 ◌>>=◌
abbrev pub ◌>>=◌ {ℓ κ} : {A : Type ℓ} {B : Type κ} → Parsed A → (A → Parsed B) → Parsed B
err message >>= next = err message
ok value >>= next = next value

-- `data.get(key)`: `None` for a missing key, and for `null`.
abbrev pub present : Option Value → Option Value
present none = none
present (some null) = none
present (some (bool b)) = some (bool b)
present (some (num s n)) = some (num s n)
present (some (str t)) = some (str t)
present (some (arr xs)) = some (arr xs)
present (some (obj fs)) = some (obj fs)

abbrev pub is_priority : String → Bool
is_priority s = s == "low" || s == "medium" || s == "high"

abbrev pub is_prep_complexity : String → Bool
is_prep_complexity s = s == "routine" || s == "non_routine"

-- A text of a set, or `None`.
abbrev pub text_in : (String → Bool) → String → Option Value → Parsed (Option String)
text_in valid message none = ok none
text_in valid message (some (str s)) = if valid s then ok (some s) else err message
text_in valid message (some other) = err message

abbrev pub text_or_null : String → Option Value → Parsed (Option String)
text_or_null message none = ok none
text_or_null message (some (str s)) = ok (some s)
text_or_null message (some other) = err message

abbrev pub parse_action : Option Value → Parsed Bool
parse_action none = err "missing 'action_required'"
parse_action (some (bool b)) = ok b
parse_action (some other) = err "'action_required' must be a boolean"

-- `0.0 <= confidence <= 1.0`, where `-0.0` is no less than `0.0`.
abbrev pub parse_confidence : Option Value → Parsed (Option ℕ)
parse_confidence none = ok none
parse_confidence (some (num negative thousandths)) =
    if (not negative || leb thousandths 0) && leb thousandths 1000
    then ok (some thousandths)
    else err "'confidence' must be within [0, 1]"
parse_confidence (some other) = err "'confidence' must be a number"

abbrev pub strings : Items → Parsed (List String)
strings nil = ok []
strings (cons (str s) xs) = do rest ← strings xs; ok (s ∷ rest)
strings (cons other xs) = err "'evidence_message_ids' must contain only strings"

-- The default `[]` is for a missing key alone.
abbrev pub parse_evidence : Option Value → Parsed (List String)
parse_evidence none = ok []
parse_evidence (some (arr xs)) = strings xs
parse_evidence (some other) = err "'evidence_message_ids' must be a list"

abbrev pub text_field : String → Fields → Parsed (Option String)
text_field key fs =
    text_or_null ("'" ++ (key ++ "' must be a string or null")) (present (get key fs))

unfoldable pub parse_fields : Fields → Parsed AnalysisResult
parse_fields fs = do
  action_required ← parse_action (get "action_required" fs)
  priority ←
      text_in is_priority "'priority' must be one of ['high', 'low', 'medium']"
        (present (get "priority" fs))
  confidence ← parse_confidence (present (get "confidence" fs))
  evidence ← parse_evidence (get "evidence_message_ids" fs)
  summary ← text_field "summary" fs
  suggested_next_action ← text_field "suggested_next_action" fs
  deadline ← text_field "deadline" fs
  deadline_date ← text_field "deadline_date" fs
  child ← text_field "child" fs
  task_category ← text_field "task_category" fs
  prep_complexity ←
      text_in is_prep_complexity "'prep_complexity' must be one of ['non_routine', 'routine']"
        (present (get "prep_complexity" fs))
  ok (record {
    action_required = action_required;
    priority = priority;
    summary = summary;
    suggested_next_action = suggested_next_action;
    deadline = deadline;
    confidence = confidence;
    evidence_message_ids = evidence;
    deadline_date = deadline_date;
    child = child;
    task_category = task_category;
    prep_complexity = prep_complexity;
  })

abbrev pub parse_value : Option Value → Parsed AnalysisResult
parse_value none = err "output is not valid JSON"
parse_value (some (obj fs)) = parse_fields fs
parse_value (some other) = err "output must be a JSON object"

-- `parse_analysis` of a text; `loads` is `json.loads`, with `none` for a `JSONDecodeError`.
unfoldable pub parse_analysis : (loads : String → Option Value) → String → Parsed AnalysisResult
unfolding parse_fields
parse_analysis loads payload = parse_value (loads payload)
