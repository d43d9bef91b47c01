-- ===== src/Pipeline/Frozen.antt =====
-- What a dry run leaves alone: src/analysis/pipeline.py with `mode == "dry_run"`.
use whatsapp_radar.Base.{
  ◌+◌, String, ◌≡◌, refl, ap, ◌∙◌, inl, inr, Bool, not, Option, none, some, List, [], ◌∷◌, ◌++◌,
  is_none, select, Bool-cases,
}
use whatsapp_radar.Contract.{AnalysisResult, Parsed, ok, err, parse_analysis}
use whatsapp_radar.Keywords.{KeywordSignal}
use whatsapp_radar.Store.Rows.{Chat, StoredMessage}
use whatsapp_radar.Store.Chats.{monitored_chats}
use whatsapp_radar.Pipeline.State.{
  dry_run, AnalysisItem, Radar, ClassificationOutcome, insert_analysis_item, start_run, close_run,
}
use whatsapp_radar.Pipeline.Services.{Answer, unavailable, answered, Services, Progress, advance}
use whatsapp_radar.Pipeline.Reminders.{create_reminder_if_eligible}
use whatsapp_radar.Pipeline.Analyze.{
  reject_at_stage1, fail_contract, commit_verdict, settle_verdict, settle_answer, analyze_chat,
  note_delta, note_passed, note_llm_call,
}
use whatsapp_radar.Pipeline.Loop.{Setup, LoopEnd, chat_delta, with_delta, after_chat, review_chats}
use whatsapp_radar.Pipeline.Finish.{finish_scan}
use whatsapp_radar.Pipeline.Scan.{begin_scan, with_monitored, analyze_monitored, scan}

-- The items that a calendar event stands for.
abbrev reminders : List AnalysisItem → List AnalysisItem
reminders = select (λ i. not (is_none i.calendar_event_id))

reminders-append_none :
    (is : List AnalysisItem) (i : AnalysisItem)
    → i.calendar_event_id ≡ none
    → reminders (is ++ i ∷ []) ≡ reminders is
reminders-append_none [] i e = rw e refl
reminders-append_none (x ∷ is) i e = elim (Bool-cases (not (is_none x.calendar_event_id))) [
  | inl g ↦ rw g (ap (λ ys. x ∷ ys) (reminders-append_none is i e))
  | inr g ↦ rw g (reminders-append_none is i e)
]

-- Chats, messages, cursors, the log of notifications, the tripwire's time and the reminders are as before.
abbrev pub Frozen : Radar → Radar → Type 0
Frozen before after =
    (after.db ≡ before.db)
    × (after.notifications ≡ before.notifications)
    × (after.last_nudge_at ≡ before.last_nudge_at)
    × (reminders after.items ≡ reminders before.items)

Frozen-trans : (a b c : Radar) → Frozen a b → Frozen b c → Frozen a c
Frozen-trans a b c (h1, h2, h3, h4) (k1, k2, k3, k4) = (k1 ∙ h1, k2 ∙ h2, k3 ∙ h3, k4 ∙ h4)

module _ (sv : Services) where
  commit-Frozen :
      (chat : Chat) (signal : KeywordSignal) (delta : List StoredMessage)
      (co : ClassificationOutcome) (result : AnalysisResult) (p : Progress)
      → Frozen p.radar (commit_verdict sv dry_run chat signal delta co result p).radar
  unfolding commit_verdict advance create_reminder_if_eligible insert_analysis_item
  commit-Frozen chat signal delta co result p =
      (refl, refl, refl, reminders-append_none p.radar.items _ refl)

  reject-Frozen :
      (chat : Chat) (signal : KeywordSignal) (delta : List StoredMessage) (p : Progress)
      → Frozen p.radar (reject_at_stage1 sv dry_run chat signal delta p).radar
  unfolding reject_at_stage1 advance insert_analysis_item
  reject-Frozen chat signal delta p = (refl, refl, refl, reminders-append_none p.radar.items _ refl)

  settle_verdict-Frozen :
      (chat : Chat) (signal : KeywordSignal) (delta : List StoredMessage)
      (co : ClassificationOutcome) (p : Progress) (r : Parsed AnalysisResult)
      → Frozen p.radar (settle_verdict sv dry_run chat signal delta co p r).radar
  unfolding fail_contract
  settle_verdict-Frozen chat signal delta co p (err message) = (refl, refl, refl, refl)
  settle_verdict-Frozen chat signal delta co p (ok result) =
      commit-Frozen chat signal delta co result p

  settle-Frozen :
      (chat : Chat) (signal : KeywordSignal) (delta : List StoredMessage) (answer : Answer)
      (p : Progress)
      → Frozen p.radar (settle_answer sv dry_run chat signal delta answer p).0.radar
  unfolding settle_answer
  settle-Frozen chat signal delta (unavailable e) p = (refl, refl, refl, refl)
  settle-Frozen chat signal delta (answered co) p =
      settle_verdict-Frozen chat signal delta co (record p { out = note_llm_call sv chat co p.out })
        (parse_analysis sv.loads co.raw_output)

  analyze-Frozen :
      (chat : Chat) (delta : List StoredMessage) (p : Progress)
      → Frozen p.radar (analyze_chat sv dry_run chat delta p).0.radar
  unfolding analyze_chat
  analyze-Frozen chat delta p = elim (Bool-cases (sv.signal delta chat.source).matched) [
    | inl e ↦ simp e (
        settle-Frozen chat (sv.signal delta chat.source) delta
          (sv.classify chat delta (sv.recall p.radar chat.id p.out.run_id))
          (record p { out = note_passed sv chat (note_delta sv chat.source delta p.out) }))
    | inr e ↦ simp e (
        reject-Frozen chat (sv.signal delta chat.source) delta
          (record p { out = note_delta sv chat.source delta p.out }))
  ]

  module _ (su : Setup) (successful : List String) where
    after_chat-Frozen :
        (before : Radar) (next : Progress → LoopEnd) (c : Chat) (cs : List Chat)
        (r : Progress × Option String)
        → ((q : Progress) → Frozen q.radar (next q).0.radar)
        → Frozen before r.0.radar
        → Frozen before (after_chat sv su dry_run successful next c cs r).0.radar
    after_chat-Frozen before next c cs (p, none) ih h =
        Frozen-trans before p.radar (next p).0.radar h (ih p)
    after_chat-Frozen before next c cs (p, some e) ih h = h

    with_delta-Frozen :
        (next : Progress → LoopEnd) (c : Chat) (cs : List Chat) (p : Progress)
        (ms : List StoredMessage)
        → ((q : Progress) → Frozen q.radar (next q).0.radar)
        → Frozen p.radar (with_delta sv su dry_run successful next c cs p ms).0.radar
    with_delta-Frozen next c cs p [] ih = ih p
    with_delta-Frozen next c cs p (m ∷ ms) ih = after_chat-Frozen p.radar next c cs _ ih (
        analyze-Frozen c (m ∷ ms)
          (record p { out = record p.out { chats_with_delta = p.out.chats_with_delta + 1 } }))

    review_chats-Frozen :
        (cs : List Chat) (p : Progress)
        → Frozen p.radar (review_chats sv su dry_run successful cs p).0.radar
    unfolding review_chats
    review_chats-Frozen [] p = (refl, refl, refl, refl)
    review_chats-Frozen (c ∷ cs) p =
        with_delta-Frozen (review_chats sv su dry_run successful cs) c cs p
          (chat_delta su dry_run successful p.radar.db c.id) (review_chats-Frozen cs)

  finish-Frozen :
      (su : Setup) (deliver : Bool) (l : LoopEnd)
      → Frozen l.0.radar (finish_scan sv su dry_run deliver l).radar
  unfolding finish_scan close_run
  finish-Frozen su deliver (p, abort) = (refl, refl, refl, refl)

  analyze_monitored-Frozen :
      (su : Setup) (deliver : Bool) (p : Progress)
      → Frozen p.radar (analyze_monitored sv su dry_run deliver [] p).radar
  unfolding analyze_monitored
  analyze_monitored-Frozen su deliver p =
      let monitored = monitored_chats p.radar.db in
      let begun = with_monitored sv su monitored p in
      let end = review_chats sv su dry_run [] monitored begun in
      Frozen-trans p.radar end.0.radar (finish_scan sv su dry_run deliver end).radar
        (review_chats-Frozen su [] monitored begun) (finish-Frozen su deliver end)

-- A dry run, whatever Stage 2 answers and however it ends, changes no chat, message or cursor, logs
-- no notification, leaves the tripwire's time and makes no item a reminder.
pub scan-Frozen :
    (sv : Services) (su : Setup) (deliver : Bool) (r : Radar)
    → Frozen r (scan sv su dry_run deliver r).radar
unfolding scan
scan-Frozen sv su deliver r =
    Frozen-trans r (begin_scan sv su dry_run r).radar (scan sv su dry_run deliver r).radar
      (unfold begin_scan start_run in (refl, refl, refl, refl))
      (analyze_monitored-Frozen sv su deliver (begin_scan sv su dry_run r))
