-- ===== src/Pipeline/Finish.antt =====
-- src/analysis/pipeline.py: the digest's items, its delivery, and the end of a run.
use whatsapp_radar.Base.{
  ℕ, String, Bool, true, false, not, ◌&&◌, ◌||◌, Option, none, some, List, [], ◌∷◌, ◌++◌, eqb, leb,
  select, if◌then◌else◌,
}
use whatsapp_radar.Base.Sort.{sort}
use whatsapp_radar.Pipeline.State.{
  Mode, AnalysisItem, RunFunnel, Alert, classifier_offline, Radar, ScanOutcome, close_run,
}
use whatsapp_radar.Pipeline.Services.{Services, Progress, is_dry}
use whatsapp_radar.Pipeline.Services.{Services, Progress, is_dry}
use whatsapp_radar.Pipeline.Loop.{Setup, LoopEnd}

module _ (sv : Services) (su : Setup) where
  -- `ORDER BY ai.chat_id, ai.id`
  abbrev pub leb_item : AnalysisItem → AnalysisItem → Bool
  leb_item a b = if eqb a.chat_id b.chat_id then leb a.id b.id else leb a.chat_id b.chat_id

  -- `build_digest`: the run's actionable items.
  unfoldable pub build_digest : Radar → ℕ → List AnalysisItem
  build_digest r run_id =
      sort leb_item (select (λ i. eqb i.run_id run_id && i.result.action_required) r.items)

  -- The status of the delivery, and whether something was delivered.
  abbrev pub delivery : Mode → Bool → List AnalysisItem → String × Bool
  delivery mode deliver digest =
      let has_items : Bool = elim digest [ [] ↦ false | i ∷ is ↦ true ] in
      if is_dry mode
      then ("dry_run", false)
      else if not deliver
      then (if has_items then "dry_run" else "none", false)
      else if has_items
      then (su.send digest, true)
      else ("none", false)

  abbrev pub run_funnel : ScanOutcome → RunFunnel
  run_funnel o = record {
    chats_synced = o.chats_synced;
    messages_synced = o.messages_synced;
    chats_monitored = o.chats_monitored;
    stage1_passed = o.stage1_passed;
    stage2_llm_calls = o.stage2_llm_calls;
    transcriptions = o.transcriptions;
    actionable = o.actionable;
    notification_status = o.notification_status;
    source_funnels = o.source_funnels;
  }

  abbrev pub closing_status : Bool → List (ℕ × String) → List (String × String) → String
  closing_status aborted errors source_errors = if aborted then "failed" else elim errors [
    | [] ↦ elim source_errors [ [] ↦ "completed" | e ∷ es ↦ "completed_with_errors" ]
    | e ∷ es ↦ "completed_with_errors"
  ]

  abbrev pub was_aborted : Option (String × List String) → Bool
  was_aborted none = false
  was_aborted (some e) = true

  abbrev pub abort_alert : Option (String × List String) → List Alert → List Alert
  abort_alert none alerts = alerts
  abort_alert (some (e, names)) alerts = alerts ++ classifier_offline e names ∷ []

  -- `_finish_scan`
  unfoldable pub finish_scan : Mode → Bool → LoopEnd → Progress
  unfolding build_digest close_run
  finish_scan mode deliver (p, abort) =
      let digest = build_digest p.radar p.out.run_id in
      let (status, delivered) = delivery mode deliver digest in
      let aborted = was_aborted abort in
      let out = record p.out {
        digest = some digest;
        aborted = aborted || p.out.aborted;
        notification_status = if aborted && not delivered then "classifier_offline" else status;
      } in
      let told = record p.radar {
        notifications =
            if delivered
            then p.radar.notifications ++ record { run_id = p.out.run_id; status = status } ∷ []
            else p.radar.notifications;
        alerts = abort_alert abort p.radar.alerts;
      } in
      record {
        radar =
            close_run sv.now out.run_id (closing_status aborted out.errors out.source_errors)
              out.chats_with_delta (run_funnel out) told;
        out = out;
      }
