-- ===== src/Pipeline/Runs.antt =====
-- What a call leaves of the runs: no part of the analysis touches `review_runs`, src/analysis/pipeline.py.
use whatsapp_radar.Base.{
  ℕ, ◌+◌, String, ◌≡◌, refl, ◌∙◌, inl, inr, Bool, true, false, Option, none, some, List, [], ◌∷◌,
  ◌==◌, Bool-cases, if◌then◌else◌,
}
use whatsapp_radar.Contract.{AnalysisResult, Parsed, ok, err, parse_analysis}
use whatsapp_radar.Keywords.{KeywordSignal}
use whatsapp_radar.Store.Rows.{Chat, StoredMessage}
use whatsapp_radar.Pipeline.State.{
  Mode, live, dry_run, process, Radar, ClassificationOutcome, insert_analysis_item,
  set_calendar_event_id,
}
use whatsapp_radar.Pipeline.Services.{Answer, unavailable, answered, Services, Progress, advance}
use whatsapp_radar.Pipeline.Reminders.{
  record_event, find_calendar_event, create_reminder_if_eligible,
}
use whatsapp_radar.Pipeline.Analyze.{
  reject_at_stage1, fail_contract, commit_verdict, settle_verdict, settle_answer, analyze_chat,
  note_delta, note_passed, note_llm_call,
}
use whatsapp_radar.Pipeline.Loop.{Setup, LoopEnd, chat_delta, with_delta, after_chat, review_chats}

-- The runs, the id of this run and its mark of an abort are as before.
abbrev pub Keeps : Progress → Progress → Type 0
Keeps p q =
    (q.radar.runs ≡ p.radar.runs) × (q.out.run_id ≡ p.out.run_id) × (q.out.aborted ≡ p.out.aborted)

pub Keeps-trans : (p q s : Progress) → Keeps p q → Keeps q s → Keeps p s
Keeps-trans p q s (h1, h2, h3) (k1, k2, k3) = (k1 ∙ h1, k2 ∙ h2, k3 ∙ h3)

runs-if :
    (b : Bool) (after before : Radar)
    → after.runs ≡ before.runs
    → (if b then after else before).runs ≡ before.runs
runs-if true after before h = h
runs-if false after before h = refl

runs-record_event :
    (item_id : ℕ) (prior created : Option String) (r : Radar)
    → (record_event item_id prior created r).runs ≡ r.runs
unfolding set_calendar_event_id
runs-record_event item_id (some prior) created r = refl
runs-record_event item_id none none r = refl
runs-record_event item_id none (some created) r = elim (Bool-cases (created == "")) [
  | inl e ↦ rw e refl
  | inr e ↦ rw e refl
]

runs-advance :
    (now : String) (mode : Mode) (chat_id : ℕ) (delta : List StoredMessage)
    (summary : Option String) (r : Radar)
    → (advance now mode chat_id delta summary r).runs ≡ r.runs
unfolding advance
runs-advance now live chat_id delta summary r = refl
runs-advance now dry_run chat_id delta summary r = refl
runs-advance now process chat_id delta summary r = refl

module _ (sv : Services) (mode : Mode) where
  runs-remind :
      (chat : Chat) (item_id : ℕ) (result : AnalysisResult) (r : Radar)
      → (create_reminder_if_eligible sv mode chat item_id result r).runs ≡ r.runs
  unfolding create_reminder_if_eligible
  runs-remind chat item_id result r = runs-if _ _ r (
      runs-record_event item_id (find_calendar_event r chat.id result.evidence_message_ids)
        (sv.insert_event chat result) r)

  module _ (chat : Chat) (delta : List StoredMessage) (signal : KeywordSignal) where
    commit-Keeps :
        (co : ClassificationOutcome) (result : AnalysisResult) (p : Progress)
        → Keeps p (commit_verdict sv mode chat signal delta co result p)
    unfolding commit_verdict
    commit-Keeps co result p =
        let (stored, item_id) = insert_analysis_item p.out.run_id chat.id result p.radar in
        (
          runs-advance sv.now mode chat.id delta result.summary _
              ∙ runs-remind chat item_id result stored
              ∙ unfold insert_analysis_item in refl,
          refl,
          refl,
        )

    reject-Keeps : (p : Progress) → Keeps p (reject_at_stage1 sv mode chat signal delta p)
    unfolding reject_at_stage1
    reject-Keeps p = (
      runs-advance sv.now mode chat.id delta none _ ∙ unfold insert_analysis_item in refl,
      refl,
      refl,
    )

    settle_verdict-Keeps :
        (co : ClassificationOutcome) (p : Progress) (r : Parsed AnalysisResult)
        → Keeps p (settle_verdict sv mode chat signal delta co p r)
    unfolding fail_contract
    settle_verdict-Keeps co p (err message) = (refl, refl, refl)
    settle_verdict-Keeps co p (ok result) = commit-Keeps co result p

    settle-Keeps :
        (answer : Answer) (p : Progress)
        → Keeps p (settle_answer sv mode chat signal delta answer p).0
    unfolding settle_answer
    settle-Keeps (unavailable e) p = (refl, refl, refl)
    settle-Keeps (answered co) p =
        settle_verdict-Keeps co (record p { out = note_llm_call sv chat co p.out })
          (parse_analysis sv.loads co.raw_output)

  analyze-Keeps :
      (chat : Chat) (delta : List StoredMessage) (p : Progress)
      → Keeps p (analyze_chat sv mode chat delta p).0
  unfolding analyze_chat
  analyze-Keeps chat delta p = elim (Bool-cases (sv.signal delta chat.source).matched) [
    | inl e ↦ simp e (
        settle-Keeps chat delta (sv.signal delta chat.source)
          (sv.classify chat delta (sv.recall p.radar chat.id p.out.run_id))
          (record p { out = note_passed sv chat (note_delta sv chat.source delta p.out) }))
    | inr e ↦ simp e (
        reject-Keeps chat delta (sv.signal delta chat.source)
          (record p { out = note_delta sv chat.source delta p.out }))
  ]

  module _ (su : Setup) (successful : List String) where
    after_chat-Keeps :
        (p : Progress) (next : Progress → LoopEnd) (c : Chat) (cs : List Chat)
        (r : Progress × Option String)
        → ((q : Progress) → Keeps q (next q).0)
        → Keeps p r.0
        → Keeps p (after_chat sv su mode successful next c cs r).0
    after_chat-Keeps p next c cs (q, none) ih h = Keeps-trans p q (next q).0 h (ih q)
    after_chat-Keeps p next c cs (q, some e) ih h = h

    with_delta-Keeps :
        (next : Progress → LoopEnd) (c : Chat) (cs : List Chat) (p : Progress)
        (ms : List StoredMessage)
        → ((q : Progress) → Keeps q (next q).0)
        → Keeps p (with_delta sv su mode successful next c cs p ms).0
    with_delta-Keeps next c cs p [] ih = ih p
    with_delta-Keeps next c cs p (m ∷ ms) ih = after_chat-Keeps p next c cs _ ih (
        analyze-Keeps c (m ∷ ms)
          (record p { out = record p.out { chats_with_delta = p.out.chats_with_delta + 1 } }))

    pub review_chats-Keeps :
        (cs : List Chat) (p : Progress) → Keeps p (review_chats sv su mode successful cs p).0
    unfolding review_chats
    review_chats-Keeps [] p = (refl, refl, refl)
    review_chats-Keeps (c ∷ cs) p =
        with_delta-Keeps (review_chats sv su mode successful cs) c cs p
          (chat_delta su mode successful p.radar.db c.id) (review_chats-Keeps cs)
