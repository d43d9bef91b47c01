-- ===== src/Contract/Accepted.antt =====
-- What the contract guarantees of an answer that it accepts.
use whatsapp_radar.Base.{
  ℕ, ◌≤◌, String, ◌≡◌, refl, ap, ◌∙◌, subst, inl, inr, Bool, true, not, ◌&&◌, ◌||◌, Option, none,
  some, arith, leb, Bool-cases,
}
use whatsapp_radar.Base.Json.{Value, Fields, bool, num, str, obj, get}
use whatsapp_radar.Contract.{
  AnalysisResult, Parsed, ok, err, ◌>>=◌, present, is_priority, is_prep_complexity, text_in,
  parse_action, parse_confidence, parse_evidence, text_field, parse_fields, parse_value,
  parse_analysis,
}

-- Inversion of a step that did not raise.
bind-eq-ok {ℓ κ} :
    {A : Type ℓ} {B : Type κ} (check : Parsed A) (next : A → Parsed B) {result : B}
    → (check >>= next) ≡ ok result
    → (value : A) × (check ≡ ok value) × (next value ≡ ok result)
bind-eq-ok (err message) next h = cc
bind-eq-ok (ok value) next h = (value, refl, h)

abbrev pub Valid : (String → Bool) → Option String → Type 0
Valid valid none = Unit
Valid valid (some s) = valid s ≡ true

abbrev pub AtMost : ℕ → Option ℕ → Type 0
AtMost n none = Unit
AtMost n (some k) = k ≤ n

ok_inj {ℓ} : {A : Type ℓ} {a b : A} → ok a ≡ ok b → a ≡ b
ok_inj h = cc

text_in-Valid :
    (valid : String → Bool) (message : String) (v : Option Value) (o : Option String)
    → text_in valid message v ≡ ok o
    → Valid valid o
text_in-Valid valid message none o h = subst (Valid valid) (ok_inj h) tt
text_in-Valid valid message (some (str s)) o h = elim (Bool-cases (valid s)) [
  | inl e ↦ subst (Valid valid) (ok_inj (rw e at h)) e
  | inr e ↦ let no : err message ≡ ok o = rw e at h in cc
]
text_in-Valid valid message (some other) o h = cc

parse_confidence-AtMost :
    (v : Option Value) (o : Option ℕ) → parse_confidence v ≡ ok o → AtMost 1000 o
parse_confidence-AtMost none o h = subst (AtMost 1000) (ok_inj h) tt
parse_confidence-AtMost (some (num negative n)) o h =
    elim (Bool-cases ((not negative || leb n 0) && leb n 1000)) [
      | inl e ↦ subst (AtMost 1000) (ok_inj (rw e at h)) (in_range negative e)
      | inr e ↦ let no : err "'confidence' must be within [0, 1]" ≡ ok o = rw e at h in cc
    ]
  where
    in_range : (s : Bool) → ((not s || leb n 0) && leb n 1000) ≡ true → n ≤ 1000
    in_range s e = ground arith
parse_confidence-AtMost (some other) o h = cc

-- What is accepted came from a JSON object with a Boolean `action_required`, which is the result's;
-- its priority and its prep complexity are absent or of their sets, its confidence is absent or at
-- most 1, and its evidence is the object's list of texts.
pub record IsAccepted (payload : Option Value) (r : AnalysisResult) : Type 0 where
  pub fields : Fields
  pub is_object : payload ≡ some (obj fields)
  pub action : get "action_required" fields ≡ some (bool r.action_required)
  pub priority : Valid is_priority r.priority
  pub confidence : AtMost 1000 r.confidence
  pub prep_complexity : Valid is_prep_complexity r.prep_complexity
  pub evidence : parse_evidence (get "evidence_message_ids" fields) ≡ ok r.evidence_message_ids

parse_action-eq-ok : (v : Option Value) (b : Bool) → parse_action v ≡ ok b → v ≡ some (bool b)
parse_action-eq-ok none b h = cc
parse_action-eq-ok (some (bool a)) b h = cc
parse_action-eq-ok (some other) b h = cc

parse_fields-IsAccepted :
    (fs : Fields) (r : AnalysisResult) → parse_fields fs ≡ ok r → IsAccepted (some (obj fs)) r
unfolding parse_fields
parse_fields-IsAccepted fs r h =
    let (action, a, h₁) = bind-eq-ok (parse_action (get "action_required" fs)) _ h in
    let (priority, p, h₂) = bind-eq-ok (text_in is_priority _ (present (get "priority" fs))) _ h₁ in
    let (confidence, c, h₃) = bind-eq-ok (parse_confidence (present (get "confidence" fs))) _ h₂ in
    let (evidence, e, h₄) = bind-eq-ok (parse_evidence (get "evidence_message_ids" fs)) _ h₃ in
    let (_, _, h₅) = bind-eq-ok (text_field "summary" fs) _ h₄ in
    let (_, _, h₆) = bind-eq-ok (text_field "suggested_next_action" fs) _ h₅ in
    let (_, _, h₇) = bind-eq-ok (text_field "deadline" fs) _ h₆ in
    let (_, _, h₈) = bind-eq-ok (text_field "deadline_date" fs) _ h₇ in
    let (_, _, h₉) = bind-eq-ok (text_field "child" fs) _ h₈ in
    let (_, _, h₁₀) = bind-eq-ok (text_field "task_category" fs) _ h₉ in
    let (prep, q, last) =
      bind-eq-ok (text_in is_prep_complexity _ (present (get "prep_complexity" fs))) _ h₁₀ in
    let result = ok_inj last in
    record {
      fields = fs;
      is_object = refl;
      action =
          parse_action-eq-ok _ _ a
          ∙ ap (λ (x : AnalysisResult). some (bool x.action_required)) result;
      priority =
          subst (λ (x : AnalysisResult). Valid is_priority x.priority) result
            (text_in-Valid is_priority "'priority' must be one of ['high', 'low', 'medium']"
              (present (get "priority" fs)) priority p);
      confidence =
          subst (λ (x : AnalysisResult). AtMost 1000 x.confidence) result
            (parse_confidence-AtMost (present (get "confidence" fs)) confidence c);
      prep_complexity =
          subst (λ (x : AnalysisResult). Valid is_prep_complexity x.prep_complexity) result
            (text_in-Valid is_prep_complexity
              "'prep_complexity' must be one of ['non_routine', 'routine']"
              (present (get "prep_complexity" fs)) prep q);
      evidence = e ∙ ap (λ (x : AnalysisResult). ok x.evidence_message_ids) result;
    }

-- Whatever text the classifier answers, and however it decodes: an accepted answer is `IsAccepted`.
pub parse_analysis-IsAccepted :
    (loads : String → Option Value) (payload : String) (r : AnalysisResult)
    → parse_analysis loads payload ≡ ok r
    → IsAccepted (loads payload) r
unfolding parse_analysis
parse_analysis-IsAccepted loads payload r = go (loads payload)
  where
    go : (v : Option Value) → parse_value v ≡ ok r → IsAccepted v r
    go none h = cc
    go (some (obj fs)) h = parse_fields-IsAccepted fs r h
    go (some other) h = cc
