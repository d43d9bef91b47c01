-- ===== src/Pipeline/Committed.antt =====
-- The cursors of a chat move exactly when a verdict for it was stored in the same call.
use whatsapp_radar.Base.{
  ℕ, suc, String, ◌≡◌, refl, ap, ◌∙◌, inl, inr, Bool, true, false, ◌&&◌, Option, none, some, List,
  [], ◌∷◌, arith, ◌==◌, eqb, eqb_refl, count_where, count_where-append, update_where, Bool-cases,
  if◌then◌else◌,
}
use whatsapp_radar.Base.Json.{Value}
use whatsapp_radar.Contract.{AnalysisResult, Parsed, ok, err, parse_analysis}
use whatsapp_radar.Keywords.{KeywordSignal}
use whatsapp_radar.Store.Rows.{Chat, StoredMessage}
use whatsapp_radar.Review.{advance_family_cursors}
use whatsapp_radar.Pipeline.State.{
  Mode, AnalysisItem, Radar, ClassificationOutcome, insert_analysis_item, set_calendar_event_id,
}
use whatsapp_radar.Pipeline.Services.{
  Answer, unavailable, answered, Services, Progress, no_verdict, is_dry, advance,
}
use whatsapp_radar.Pipeline.Reminders.{
  record_event, create_reminder_if_eligible, find_calendar_event,
}
use whatsapp_radar.Pipeline.Analyze.{
  reject_at_stage1, fail_contract, commit_verdict, settle_verdict, settle_answer, analyze_chat,
  note_delta, note_passed, note_llm_call,
}

abbrev accepted : Parsed AnalysisResult → Option AnalysisResult
accepted (ok r) = some r
accepted (err e) = none

-- The verdict that Stage 2's answer gives, if any.
abbrev pub answer_verdict : (String → Option Value) → Answer → Option AnalysisResult
answer_verdict loads (unavailable e) = none
answer_verdict loads (answered co) = accepted (parse_analysis loads co.raw_output)

-- The verdict that a call has to store: Stage 1's rejection, or an accepted answer.
abbrev pub verdict_of : Services → Chat → List StoredMessage → Progress → Option AnalysisResult
verdict_of sv chat delta p =
    if (sv.signal delta chat.source).matched
    then answer_verdict sv.loads (sv.classify chat delta (sv.recall p.radar chat.id p.out.run_id))
    else some no_verdict

-- The items of a run for a chat.
abbrev pub items_of : ℕ → ℕ → Radar → ℕ
items_of run_id chat_id r = count_where (λ i. eqb i.run_id run_id && eqb i.chat_id chat_id) r.items

items-insert :
    (run_id chat_id : ℕ) (result : AnalysisResult) (r : Radar)
    → items_of run_id chat_id (insert_analysis_item run_id chat_id result r).0
      ≡ suc (items_of run_id chat_id r)
unfolding insert_analysis_item
items-insert run_id chat_id result r =
    count_where-append (λ i. eqb i.run_id run_id && eqb i.chat_id chat_id) r.items _
    ∙ rw (eqb_refl run_id, eqb_refl chat_id) (omega arith)

items-set_event :
    (run_id chat_id item_id : ℕ) (event : String) (r : Radar)
    → items_of run_id chat_id (set_calendar_event_id item_id event r) ≡ items_of run_id chat_id r
unfolding set_calendar_event_id
items-set_event run_id chat_id item_id event r = go r.items
  where
    go :
        (is : List AnalysisItem)
        → count_where
            (λ i. eqb i.run_id run_id && eqb i.chat_id chat_id)
            (update_where
              (λ i. eqb i.id item_id)
              (λ i. record i { calendar_event_id = some event })
              is)
          ≡ count_where (λ i. eqb i.run_id run_id && eqb i.chat_id chat_id) is
    go [] = refl
    go (i ∷ is) = ground (arith, go is)

-- No chat, message or cursor has changed, and no count of items.
abbrev Same : ℕ → ℕ → Radar → Radar → Type 0
Same run_id chat_id before after =
    (items_of run_id chat_id after ≡ items_of run_id chat_id before) × (after.db ≡ before.db)

Same-if :
    (run_id chat_id : ℕ) (b : Bool) (before after : Radar)
    → Same run_id chat_id before after
    → Same run_id chat_id before (if b then after else before)
Same-if run_id chat_id true before after h = h
Same-if run_id chat_id false before after h = (refl, refl)

Same-set_event :
    (run_id chat_id item_id : ℕ) (event : String) (r : Radar)
    → Same run_id chat_id r (set_calendar_event_id item_id event r)
unfolding set_calendar_event_id
Same-set_event run_id chat_id item_id event r =
    (items-set_event run_id chat_id item_id event r, refl)

Same-record_event :
    (run_id chat_id item_id : ℕ) (prior created : Option String) (r : Radar)
    → Same run_id chat_id r (record_event item_id prior created r)
Same-record_event run_id chat_id item_id (some prior) created r =
    Same-set_event run_id chat_id item_id prior r
Same-record_event run_id chat_id item_id none none r = (refl, refl)
Same-record_event run_id chat_id item_id none (some created) r = elim (Bool-cases (created == "")) [
  | inl e ↦ rw e (refl, refl)
  | inr e ↦ rw e (Same-set_event run_id chat_id item_id created r)
]

module _ (sv : Services) (mode : Mode) (wet : is_dry mode ≡ false) (chat : Chat) where
  Same-remind :
      (run_id item_id : ℕ) (result : AnalysisResult) (r : Radar)
      → Same run_id chat.id r (create_reminder_if_eligible sv mode chat item_id result r)
  unfolding create_reminder_if_eligible
  Same-remind run_id item_id result r = Same-if run_id chat.id _ r _ (
      Same-record_event run_id chat.id item_id
        (find_calendar_event r chat.id result.evidence_message_ids) (sv.insert_event chat result) r)

  -- What a call of a run leaves, by the verdict that it had to store.
  abbrev pub Commits : ℕ → List StoredMessage → Radar → Option AnalysisResult → Radar → Type 0
  Commits run_id delta before none after = (after.db ≡ before.db) × (after.items ≡ before.items)
  Commits run_id delta before (some result) after =
      (after.db ≡ advance_family_cursors sv.now chat.id delta result.summary before.db)
      × (items_of run_id chat.id after ≡ suc (items_of run_id chat.id before))

  commit-Commits :
      (signal : KeywordSignal) (delta : List StoredMessage) (co : ClassificationOutcome)
      (result : AnalysisResult) (p : Progress)
      → Commits p.out.run_id delta p.radar
          (some result)
          (commit_verdict sv mode chat signal delta co result p).radar
  unfolding commit_verdict advance
  commit-Commits signal delta co result p =
      let (stored, item_id) = insert_analysis_item p.out.run_id chat.id result p.radar in
      let same = Same-remind p.out.run_id item_id result stored in
      rw wet (
        ap (advance_family_cursors sv.now chat.id delta result.summary)
            (same.1 ∙ unfold insert_analysis_item in refl),
        same.0 ∙ items-insert p.out.run_id chat.id result p.radar,
      )

  reject-Commits :
      (signal : KeywordSignal) (delta : List StoredMessage) (p : Progress)
      → Commits p.out.run_id delta p.radar
          (some no_verdict)
          (reject_at_stage1 sv mode chat signal delta p).radar
  unfolding reject_at_stage1 advance
  reject-Commits signal delta p = rw wet (
    ap (advance_family_cursors sv.now chat.id delta none) (unfold insert_analysis_item in refl),
    items-insert p.out.run_id chat.id no_verdict p.radar,
  )

  settle_verdict-Commits :
      (signal : KeywordSignal) (delta : List StoredMessage) (co : ClassificationOutcome)
      (p : Progress) (r : Parsed AnalysisResult)
      → Commits p.out.run_id delta p.radar
          (accepted r)
          (settle_verdict sv mode chat signal delta co p r).radar
  unfolding fail_contract
  settle_verdict-Commits signal delta co p (err message) = (refl, refl)
  settle_verdict-Commits signal delta co p (ok result) = commit-Commits signal delta co result p

  settle-Commits :
      (signal : KeywordSignal) (delta : List StoredMessage) (answer : Answer) (p : Progress)
      → Commits p.out.run_id delta p.radar
          (answer_verdict sv.loads answer)
          (settle_answer sv mode chat signal delta answer p).0.radar
  unfolding settle_answer
  settle-Commits signal delta (unavailable e) p = (refl, refl)
  settle-Commits signal delta (answered co) p =
      settle_verdict-Commits signal delta co (record p { out = note_llm_call sv chat co p.out })
        (parse_analysis sv.loads co.raw_output)

  -- In a live or a process run a call of `_analyze_chat` moves cursors exactly when it stores a verdict,
  -- which is Stage 1's rejection or an answer that the contract accepts. Then the run has one more
  -- item for the chat, and the cursors are the family's, advanced over the delta. On every other
  -- path, the hub unreachable or the answer refused, chats, messages, cursors and items are as before.
  pub analyze-Commits :
      (delta : List StoredMessage) (p : Progress)
      → Commits p.out.run_id delta p.radar
          (verdict_of sv chat delta p)
          (analyze_chat sv mode chat delta p).0.radar
  unfolding analyze_chat
  analyze-Commits delta p = elim (Bool-cases (sv.signal delta chat.source).matched) [
    | inl e ↦ simp e (
        settle-Commits (sv.signal delta chat.source) delta
          (sv.classify chat delta (sv.recall p.radar chat.id p.out.run_id))
          (record p { out = note_passed sv chat (note_delta sv chat.source delta p.out) }))
    | inr e ↦ simp e (
        reject-Commits (sv.signal delta chat.source) delta
          (record p { out = note_delta sv chat.source delta p.out }))
  ]
