-- ===== src/Pipeline/Scan.antt =====
-- src/analysis/pipeline.py: the beginning of a run, the sync, and `scan` itself.
use whatsapp_radar.Base.{
  ◌+◌, String, Bool, Option, none, some, List, [], ◌∷◌, ◌++◌, length, if◌then◌else◌,
}
use whatsapp_radar.Base.Text.{join}
use whatsapp_radar.Store.Rows.{Chat}
use whatsapp_radar.Store.Chats.{monitored_chats}
use whatsapp_radar.Pipeline.State.{
  Mode, live, dry_run, process, Funnels, on_funnel, sources_offline, Radar, new_outcome, start_run,
  close_run,
}
use whatsapp_radar.Pipeline.Services.{Services, Progress}
use whatsapp_radar.Pipeline.Services.{Services, Progress}
use whatsapp_radar.Pipeline.Loop.{SourceResult, Setup, review_chats}
use whatsapp_radar.Pipeline.Finish.{finish_scan}

module _ (sv : Services) (su : Setup) where
  -- `_begin_scan`: the run row, and a funnel for each configured source.
  abbrev pub ensure_sources : List String → Funnels → Funnels
  ensure_sources [] g = g
  ensure_sources (s ∷ ss) g = ensure_sources ss (on_funnel s (λ f. f) g)

  unfoldable pub begin_scan : Mode → Radar → Progress
  unfolding start_run
  begin_scan mode r =
      let kind : String = elim mode [ live ↦ "scan" | dry_run ↦ "scan" | process ↦ "process" ] in
      let (started, run_id) = start_run sv.now kind mode su.days r in
      let fresh = new_outcome run_id mode in
      record {
        radar = started;
        out = record fresh { source_funnels = ensure_sources su.sources fresh.source_funnels };
      }

  abbrev pub note_sync : List SourceResult → Funnels → Funnels
  note_sync [] g = g
  note_sync (x ∷ xs) g = note_sync xs (
      on_funnel x.source
        (λ f. record f {
          sync_status = if x.succeeded then "success" else "failed";
          sync_error = x.error;
          chats_synced = x.chats_seen;
          messages_synced = x.messages_added;
        })
        g)

  -- `synced.successful_sources`
  abbrev pub successful_of : List SourceResult → List String
  successful_of [] = []
  successful_of (x ∷ xs) =
      let rest = successful_of xs in if x.succeeded then x.source ∷ rest else rest

  -- `_sync`
  unfoldable pub run_sync : Progress → Progress × List String
  run_sync p =
      let s = su.sync p.radar.db in
      (
        record {
          radar = record p.radar { db = s.db };
          out = record p.out {
            source_errors = p.out.source_errors ++ s.source_errors;
            chats_synced = p.out.chats_synced + s.chats_seen;
            messages_synced = p.out.messages_synced + s.messages_added;
            source_funnels = note_sync s.results p.out.source_funnels;
          };
        },
        successful_of s.results,
      )

  abbrev error_texts : List (String × String) → List String
  error_texts [] = []
  error_texts ((source, error) ∷ es) = join ": " (source ∷ error ∷ []) ∷ error_texts es

  -- `_abort_offline`, with the detail of `ConnectorOffline` for all sources.
  unfoldable pub abort_offline : Progress → Progress
  unfolding close_run
  abort_offline p =
      let detail =
        join "" ("all_sources offline — " ∷ join "; " (error_texts p.out.source_errors) ∷ []) in
      let out = record p.out {
        notification_status = "offline";
        errors = p.out.errors ++ (0, detail) ∷ [];
      } in
      record {
        radar =
            close_run sv.now out.run_id "failed" 0
              (record {
                chats_synced = 0;
                messages_synced = 0;
                chats_monitored = 0;
                stage1_passed = 0;
                stage2_llm_calls = 0;
                transcriptions = 0;
                actionable = 0;
                notification_status = "offline";
                source_funnels = out.source_funnels;
              })
              (record p.radar { alerts = p.radar.alerts ++ sources_offline detail ∷ [] });
        out = out;
      }

  -- The tripwire's nudge, where one was sent.
  abbrev pub nudged : Option String → Radar → Radar
  nudged none r = r
  nudged (some at) r = record r { last_nudge_at = some at }

  -- The transcription phase and the tripwire, which stand before the analysis of a live run.
  unfoldable pub prepare_live : Progress → Progress
  prepare_live p =
      let (db, done) = su.transcribe p.radar.db in
      let transcribed = record p.radar { db = db } in
      let wire = su.run_tripwire transcribed in
      record {
        radar = nudged wire.sent_at transcribed;
        out = record p.out {
          transcriptions = done;
          tripwire_scanned = wire.scanned;
          tripwire_hits = wire.hits;
          tripwire_truncated = wire.truncated;
          tripwire_nudge_status = wire.nudge_status;
        };
      }

  abbrev pub note_monitored : List Chat → Funnels → Funnels
  note_monitored [] g = g
  note_monitored (c ∷ cs) g =
      note_monitored cs
        (on_funnel c.source (λ f. record f { monitored_channels = f.monitored_channels + 1 }) g)

  -- The counts of the monitored chats.
  abbrev pub with_monitored : List Chat → Progress → Progress
  with_monitored monitored p = record p {
    out = record p.out {
      chats_monitored = length monitored;
      source_funnels = note_monitored monitored p.out.source_funnels;
    };
  }

  -- From the list of monitored chats on.
  unfoldable pub analyze_monitored : Mode → Bool → List String → Progress → Progress
  unfolding review_chats finish_scan
  analyze_monitored mode deliver successful p =
      let monitored = monitored_chats p.radar.db in
      finish_scan sv su mode deliver
        (review_chats sv su mode successful monitored (with_monitored monitored p))

  -- The live phases, where no source that came up means `ConnectorOffline`.
  abbrev pub after_sync : Bool → Progress × List String → Progress
  after_sync deliver (p, []) = abort_offline p
  after_sync deliver (p, s ∷ ss) = analyze_monitored live deliver (s ∷ ss) (prepare_live p)

  unfoldable pub scan : Mode → Bool → Radar → Progress
  unfolding begin_scan run_sync abort_offline prepare_live analyze_monitored
  scan live deliver r = after_sync deliver (run_sync (begin_scan live r))
  scan dry_run deliver r = analyze_monitored dry_run deliver [] (begin_scan dry_run r)
  scan process deliver r = analyze_monitored process deliver [] (begin_scan process r)
