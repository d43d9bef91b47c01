-- ===== src/Tests/Scans.antt =====
-- One scan of the samples, in each mode.
use whatsapp_radar.Base.{◌≡◌, refl, map, true, none, some, [], ◌∷◌}
use whatsapp_radar.Base.Sort.{sort}
use whatsapp_radar.Base.TextOrder.{leb_text}
use whatsapp_radar.Base.Json.{get}
use whatsapp_radar.Contract.{parse_fields, parse_analysis}
use whatsapp_radar.Store.Chats.{get_chat, monitored_chats, family_member_ids}
use whatsapp_radar.Store.Messages.{cursor, family_delta_since_cursor, leb_sent, advance_cursor}
use whatsapp_radar.Review.{hold_back_if_transcribing, barrier, advance_family_cursors}
use whatsapp_radar.Keywords.{has_actionable_signal}
use whatsapp_radar.Pipeline.State.{
  Radar, live, dry_run, new_outcome, start_run, on_funnel, insert_analysis_item, close_run,
}
use whatsapp_radar.Pipeline.Services.{Progress, advance}
use whatsapp_radar.Pipeline.Reminders.{find_calendar_event, create_reminder_if_eligible}
use whatsapp_radar.Pipeline.Analyze.{reject_at_stage1, commit_verdict, settle_answer, analyze_chat}
use whatsapp_radar.Pipeline.Loop.{chat_delta, review_chats}
use whatsapp_radar.Pipeline.Finish.{build_digest, finish_scan}
use whatsapp_radar.Pipeline.Scan.{begin_scan, run_sync, prepare_live, analyze_monitored, scan}
use whatsapp_radar.Pipeline.Funnel.{AreBalanced}
use whatsapp_radar.Pipeline.Committed.{Commits, verdict_of, analyze-Commits}
use whatsapp_radar.Pipeline.Frozen.{Frozen, scan-Frozen}
use whatsapp_radar.Pipeline.Tallies.{Sums}
use whatsapp_radar.Pipeline.Totals.{scan-Sums}
use whatsapp_radar.Pipeline.Balanced.{scan-AreBalanced}
use whatsapp_radar.Pipeline.Stale.{abandon_run, sweep_stale, reconcile_stale_runs}
use whatsapp_radar.Pipeline.Stale.Settled.{settled, runs-reconcile_stale}
use whatsapp_radar.Tests.Samples.{run, chat, delta, radar, services, setup}

abbrev start : Progress
start = record { radar = radar; out = new_outcome 7 live }

analyze-Commits_example :
    Commits services live refl
      (chat 1 "whatsapp" "monitored" none)
      7
      delta
      radar
      (verdict_of services (chat 1 "whatsapp" "monitored" none) delta start)
      (analyze_chat services live (chat 1 "whatsapp" "monitored" none) delta start).0.radar
analyze-Commits_example =
    analyze-Commits services live refl (chat 1 "whatsapp" "monitored" none) delta start

scan-AreBalanced_example : AreBalanced (scan services setup live true radar).out.source_funnels
scan-AreBalanced_example = scan-AreBalanced services setup live true radar

scan-Sums_example : Sums 0 (scan services setup live true radar).out
scan-Sums_example = scan-Sums services setup live true radar

scan-Frozen_example : Frozen radar (scan services setup dry_run true radar).radar
scan-Frozen_example = scan-Frozen services setup true radar

-- A live run analyses the two monitored chats: one is passed, the digest is sent.
scan_test :
    ((scan services setup live true radar).out.stage1_passed ≡ 1)
    × ((scan services setup live true radar).out.notification_status ≡ "sent")
unfolding scan begin_scan start_run run_sync prepare_live analyze_monitored monitored_chats sort
    review_chats chat_delta family_delta_since_cursor family_member_ids cursor leb_sent leb_text
    get_chat hold_back_if_transcribing barrier analyze_chat has_actionable_signal settle_answer
    parse_analysis parse_fields get commit_verdict insert_analysis_item create_reminder_if_eligible
    find_calendar_event advance advance_family_cursors advance_cursor reject_at_stage1 on_funnel
    finish_scan build_digest close_run
scan_test = (refl, refl)

-- A check that started at instant 0, seen 40 minutes later, a scan of the same age, and a finished check.
abbrev stuck : Radar
stuck = record radar {
  runs =
      run 1 "traffic-check" "running"
      ∷ run 2 "scan" "running"
      ∷ run 3 "calendar-scan" "completed"
      ∷ [];
}

runs-reconcile_stale_example :
    (reconcile_stale_runs (λ s. some 0) 2400000000 stuck).0.runs
    ≡ map (settled (λ s. some 0) 2400000000) stuck.runs
runs-reconcile_stale_example =
    runs-reconcile_stale (λ s. some 0) 2400000000 stuck (refl, (refl, (refl, tt)))

-- Only the first is abandoned.
reconcile_stale_test :
    map (λ x. x.status) (reconcile_stale_runs (λ s. some 0) 2400000000 stuck).0.runs
    ≡ "abandoned" ∷ "running" ∷ "completed" ∷ []
unfolding reconcile_stale_runs sweep_stale abandon_run sort
reconcile_stale_test = refl
