-- ===== src/Pipeline/Balanced.antt =====
-- Each source's counts are in balance at the end of a scan: src/analysis/pipeline.py.
use whatsapp_radar.Base.{◌+◌, String, Bool, Option, none, some, List, [], ◌∷◌, if◌then◌else◌}
use whatsapp_radar.Store.Rows.{Chat, StoredMessage}
use whatsapp_radar.Store.Chats.{monitored_chats}
use whatsapp_radar.Pipeline.State.{Mode, live, dry_run, process, Funnels, Radar, start_run}
use whatsapp_radar.Pipeline.Services.{Services, Progress}
use whatsapp_radar.Pipeline.Loop.{
  Setup, LoopEnd, SourceResult, chat_delta, with_delta, after_chat, review_chats,
}
use whatsapp_radar.Pipeline.Finish.{finish_scan}
use whatsapp_radar.Pipeline.Scan.{
  begin_scan, run_sync, note_sync, ensure_sources, note_monitored, with_monitored, abort_offline,
  prepare_live, after_sync, analyze_monitored, scan,
}
use whatsapp_radar.Pipeline.Funnel.{AreBalanced, AreBalanced-on_funnel}
use whatsapp_radar.Pipeline.Balance.{analyze-AreBalanced}

abbrev Holds : Progress → Type 0
Holds p = AreBalanced p.out.source_funnels

module _ (sv : Services) (su : Setup) where
  AreBalanced-note_monitored :
      (cs : List Chat) (g : Funnels) → AreBalanced g → AreBalanced (note_monitored sv su cs g)
  AreBalanced-note_monitored [] g h = h
  AreBalanced-note_monitored (c ∷ cs) g h = AreBalanced-note_monitored cs _ (
      AreBalanced-on_funnel c.source
        (λ f. record f { monitored_channels = f.monitored_channels + 1 }) g (λ x b. b) h)

  AreBalanced-note_sync :
      (xs : List SourceResult) (g : Funnels) → AreBalanced g → AreBalanced (note_sync sv su xs g)
  AreBalanced-note_sync [] g h = h
  AreBalanced-note_sync (r ∷ rs) g h = AreBalanced-note_sync rs _ (
      AreBalanced-on_funnel r.source
        (λ f. record f {
          sync_status = if r.succeeded then "success" else "failed";
          sync_error = r.error;
          chats_synced = r.chats_seen;
          messages_synced = r.messages_added;
        })
        g (λ x b. b) h)

  AreBalanced-ensure_sources :
      (ss : List String) (g : Funnels) → AreBalanced g → AreBalanced (ensure_sources sv su ss g)
  AreBalanced-ensure_sources [] g h = h
  AreBalanced-ensure_sources (s ∷ ss) g h =
      AreBalanced-ensure_sources ss _ (AreBalanced-on_funnel s (λ f. f) g (λ x b. b) h)

  module _ (mode : Mode) (successful : List String) where
    after_chat-Holds :
        (next : Progress → LoopEnd) (c : Chat) (cs : List Chat) (r : Progress × Option String)
        → ((q : Progress) → Holds q → Holds (next q).0)
        → Holds r.0
        → Holds (after_chat sv su mode successful next c cs r).0
    after_chat-Holds next c cs (p, none) ih h = ih p h
    after_chat-Holds next c cs (p, some e) ih h = h

    with_delta-Holds :
        (next : Progress → LoopEnd) (c : Chat) (cs : List Chat) (p : Progress)
        (ms : List StoredMessage)
        → ((q : Progress) → Holds q → Holds (next q).0)
        → Holds p
        → Holds (with_delta sv su mode successful next c cs p ms).0
    with_delta-Holds next c cs p [] ih h = ih p h
    with_delta-Holds next c cs p (m ∷ ms) ih h = after_chat-Holds next c cs _ ih (
        analyze-AreBalanced sv mode c (m ∷ ms)
          (record p { out = record p.out { chats_with_delta = p.out.chats_with_delta + 1 } }) h)

    review_chats-Holds :
        (cs : List Chat) (p : Progress)
        → Holds p
        → Holds (review_chats sv su mode successful cs p).0
    unfolding review_chats
    review_chats-Holds [] p h = h
    review_chats-Holds (c ∷ cs) p h =
        with_delta-Holds (review_chats sv su mode successful cs) c cs p
          (chat_delta su mode successful p.radar.db c.id) (review_chats-Holds cs) h

    finish-Holds :
        (deliver : Bool) (l : LoopEnd) → Holds l.0 → Holds (finish_scan sv su mode deliver l)
    unfolding finish_scan
    finish-Holds deliver (p, abort) h = h

    analyze_monitored-Holds :
        (deliver : Bool) (p : Progress)
        → Holds p
        → Holds (analyze_monitored sv su mode deliver successful p)
    unfolding analyze_monitored
    analyze_monitored-Holds deliver p h =
        let begun = with_monitored sv su (monitored_chats p.radar.db) p in
        finish-Holds deliver (review_chats sv su mode successful (monitored_chats p.radar.db) begun)
          (review_chats-Holds (monitored_chats p.radar.db) begun
            (AreBalanced-note_monitored (monitored_chats p.radar.db) p.out.source_funnels h))

    begin-Holds : (r : Radar) → Holds (begin_scan sv su mode r)
    unfolding begin_scan start_run
    begin-Holds r = AreBalanced-ensure_sources su.sources [] tt

  after_sync-Holds :
      (deliver : Bool) (s : Progress × List String) → Holds s.0 → Holds (after_sync sv su deliver s)
  unfolding abort_offline prepare_live
  after_sync-Holds deliver (p, []) h = h
  after_sync-Holds deliver (p, s ∷ ss) h =
      analyze_monitored-Holds live (s ∷ ss) deliver (prepare_live sv su p) h

  run_sync-Holds : (p : Progress) → Holds p → Holds (run_sync sv su p).0
  unfolding run_sync
  run_sync-Holds p h = AreBalanced-note_sync (su.sync p.radar.db).results p.out.source_funnels h

  -- At the end of a scan, in any mode and whether it aborts or not, every source is in balance: its
  -- chats with a delta are those that Stage 1 passed and those that it rejected, and it has no more
  -- calls of the model and no more actionable verdicts than passed chats, and no more moves of
  -- cursors than chats with a delta.
  pub scan-AreBalanced :
      (mode : Mode) (deliver : Bool) (r : Radar)
      → AreBalanced (scan sv su mode deliver r).out.source_funnels
  unfolding scan
  scan-AreBalanced live deliver r =
      after_sync-Holds deliver (run_sync sv su (begin_scan sv su live r))
        (run_sync-Holds (begin_scan sv su live r) (begin-Holds live [] r))
  scan-AreBalanced dry_run deliver r =
      analyze_monitored-Holds dry_run [] deliver (begin_scan sv su dry_run r)
        (begin-Holds dry_run [] r)
  scan-AreBalanced process deliver r =
      analyze_monitored-Holds process [] deliver (begin_scan sv su process r)
        (begin-Holds process [] r)
