-- ===== src/Pipeline/Totals.antt =====
-- The totals of a whole scan: the loop over the chats, the sync, and the beginning of a run.
use whatsapp_radar.Base.{
  ℕ, suc, ◌+◌, String, ◌≡◌, refl, Bool, Option, none, some, List, [], ◌∷◌, arith, length,
  if◌then◌else◌,
}
use whatsapp_radar.Store.Rows.{Chat, StoredMessage}
use whatsapp_radar.Store.Chats.{monitored_chats}
use whatsapp_radar.Pipeline.State.{
  Mode, live, dry_run, process, SourceFunnel, Funnels, on_funnel, ScanOutcome, Radar, start_run,
}
use whatsapp_radar.Pipeline.Services.{Services, Progress}
use whatsapp_radar.Pipeline.Analyze.{analyze_chat}
use whatsapp_radar.Pipeline.Loop.{
  Setup, LoopEnd, SourceResult, chat_delta, with_delta, after_chat, review_chats,
}
use whatsapp_radar.Pipeline.Finish.{finish_scan}
use whatsapp_radar.Pipeline.Scan.{
  begin_scan, run_sync, note_sync, ensure_sources, note_monitored, with_monitored, abort_offline,
  prepare_live, after_sync, analyze_monitored, scan,
}
use whatsapp_radar.Pipeline.Tallies.{Sums, Adds, totals-on_funnel, Sums-analyze}

Adds-trans :
    (d d' n : ℕ) (g g' g'' : Funnels)
    → n ≡ d + d'
    → Adds 0 0 0 d 0 0 g g'
    → Adds 0 0 0 d' 0 0 g' g''
    → Adds 0 0 0 n 0 0 g g''
Adds-trans d d' n g g' g'' e (h1, h2, h3, h4, h5, h6) (k1, k2, k3, k4, k5, k6) = (
  omega (arith, h1, k1),
  omega (arith, h2, k2),
  omega (arith, h3, k3),
  omega (arith, h4, k4, e),
  omega (arith, h5, k5),
  omega (arith, h6, k6),
)

Adds-refl : (g : Funnels) → Adds 0 0 0 0 0 0 g g
Adds-refl g = (omega arith, omega arith, omega arith, omega arith, omega arith, omega arith)

module _ (sv : Services) (su : Setup) where
  Adds-note_monitored :
      (cs : List Chat) (g : Funnels) → Adds 0 0 0 (length cs) 0 0 g (note_monitored sv su cs g)
  Adds-note_monitored [] g = Adds-refl g
  Adds-note_monitored (c ∷ cs) g =
      let f : SourceFunnel → SourceFunnel =
        λ f. record f { monitored_channels = f.monitored_channels + 1 } in
      Adds-trans 1 (length cs) (suc (length cs)) g (on_funnel c.source f g)
        (note_monitored sv su (c ∷ cs) g) (omega arith)
        (totals-on_funnel c.source f g 0 0 0 1 0 0
          (λ x. (omega arith, omega arith, omega arith, omega arith, omega arith, omega arith)))
        (Adds-note_monitored cs (on_funnel c.source f g))

  Adds-note_sync :
      (xs : List SourceResult) (g : Funnels) → Adds 0 0 0 0 0 0 g (note_sync sv su xs g)
  Adds-note_sync [] g = Adds-refl g
  Adds-note_sync (r ∷ rs) g =
      let f : SourceFunnel → SourceFunnel = λ f. record f {
        sync_status = if r.succeeded then "success" else "failed";
        sync_error = r.error;
        chats_synced = r.chats_seen;
        messages_synced = r.messages_added;
      } in
      Adds-trans 0 0 0 g (on_funnel r.source f g) (note_sync sv su (r ∷ rs) g) (omega arith)
        (totals-on_funnel r.source f g 0 0 0 0 0 0
          (λ x. (omega arith, omega arith, omega arith, omega arith, omega arith, omega arith)))
        (Adds-note_sync rs (on_funnel r.source f g))

  Adds-ensure_sources :
      (ss : List String) (g : Funnels) → Adds 0 0 0 0 0 0 g (ensure_sources sv su ss g)
  Adds-ensure_sources [] g = Adds-refl g
  Adds-ensure_sources (s ∷ ss) g =
      Adds-trans 0 0 0 g (on_funnel s (λ f. f) g) (ensure_sources sv su (s ∷ ss) g) (omega arith)
        (totals-on_funnel s (λ f. f) g 0 0 0 0 0 0
          (λ x. (omega arith, omega arith, omega arith, omega arith, omega arith, omega arith)))
        (Adds-ensure_sources ss (on_funnel s (λ f. f) g))

  module _ (mode : Mode) (successful : List String) where
    after_chat-Sums :
        (next : Progress → LoopEnd) (c : Chat) (cs : List Chat) (r : Progress × Option String)
        → ((q : Progress) → Sums 0 q.out → Sums 0 (next q).0.out)
        → Sums 0 r.0.out
        → Sums 0 (after_chat sv su mode successful next c cs r).0.out
    after_chat-Sums next c cs (p, none) ih h = ih p h
    after_chat-Sums next c cs (p, some e) ih (h1, h2, h3, h4, h5, h6) =
        (h1, h2, h3, h4, h5, omega (arith, h6))

    with_delta-Sums :
        (next : Progress → LoopEnd) (c : Chat) (cs : List Chat) (p : Progress)
        (ms : List StoredMessage)
        → ((q : Progress) → Sums 0 q.out → Sums 0 (next q).0.out)
        → Sums 0 p.out
        → Sums 0 (with_delta sv su mode successful next c cs p ms).0.out
    with_delta-Sums next c cs p [] ih h = ih p h
    with_delta-Sums next c cs p (m ∷ ms) ih (h1, h2, h3, h4, h5, h6) =
        let counted : Progress = record p {
          out = record p.out { chats_with_delta = p.out.chats_with_delta + 1 };
        } in
        after_chat-Sums next c cs (analyze_chat sv mode c (m ∷ ms) counted) ih
          (Sums-analyze sv mode c (m ∷ ms) counted (h1, h2, h3, h4, h5, omega (arith, h6)))

    review_chats-Sums :
        (cs : List Chat) (p : Progress)
        → Sums 0 p.out
        → Sums 0 (review_chats sv su mode successful cs p).0.out
    unfolding review_chats
    review_chats-Sums [] p h = h
    review_chats-Sums (c ∷ cs) p h =
        with_delta-Sums (review_chats sv su mode successful cs) c cs p
          (chat_delta su mode successful p.radar.db c.id) (review_chats-Sums cs) h

    finish-Sums :
        (deliver : Bool) (l : LoopEnd)
        → Sums 0 l.0.out
        → Sums 0 (finish_scan sv su mode deliver l).out
    unfolding finish_scan
    finish-Sums deliver (p, abort) h = h

    -- No chat has been counted as monitored.
    abbrev Fresh : ScanOutcome → Type 0
    Fresh o = Sums 0 o × (o.chats_monitored ≡ 0)

    analyze_monitored-Sums :
        (deliver : Bool) (p : Progress)
        → Fresh p.out
        → Sums 0 (analyze_monitored sv su mode deliver successful p).out
    unfolding analyze_monitored
    analyze_monitored-Sums deliver p ((h1, h2, h3, h4, h5, h6), z) =
        let monitored = monitored_chats p.radar.db in
        let (t1, t2, t3, t4, t5, t6) = Adds-note_monitored monitored p.out.source_funnels in
        let begun = with_monitored sv su monitored p in
        let end = review_chats sv su mode successful monitored begun in
        finish-Sums deliver end (
          review_chats-Sums monitored begun (
            omega (arith, t1, h1),
            omega (arith, t2, h2),
            omega (arith, t3, h3),
            omega (arith, t4, h4, z),
            omega (arith, t5, h5),
            omega (arith, t6, h6),
          ))

    begin-Fresh : (r : Radar) → Fresh (begin_scan sv su mode r).out
    unfolding begin_scan start_run
    begin-Fresh r =
        let (t1, t2, t3, t4, t5, t6) = Adds-ensure_sources su.sources [] in
        ((t1, t2, t3, t4, omega (arith, t5), omega (arith, t6)), refl)

  run_sync-Fresh : (p : Progress) → Fresh live [] p.out → Fresh live [] (run_sync sv su p).0.out
  unfolding run_sync
  run_sync-Fresh p ((h1, h2, h3, h4, h5, h6), z) =
      let (t1, t2, t3, t4, t5, t6) =
        Adds-note_sync (su.sync p.radar.db).results p.out.source_funnels in
      (
        (
          omega (arith, t1, h1),
          omega (arith, t2, h2),
          omega (arith, t3, h3),
          omega (arith, t4, h4, z),
          omega (arith, t5, h5),
          omega (arith, t6, h6),
        ),
        z,
      )

  after_sync-Sums :
      (deliver : Bool) (s : Progress × List String)
      → Fresh live [] s.0.out
      → Sums 0 (after_sync sv su deliver s).out
  unfolding abort_offline prepare_live
  after_sync-Sums deliver (p, []) h = h.0
  after_sync-Sums deliver (p, s ∷ ss) h =
      analyze_monitored-Sums live (s ∷ ss) deliver (prepare_live sv su p) h

  -- However a scan ends, its totals are the sums over its sources: chats that passed Stage 1, calls of
  -- the model, actionable verdicts and monitored chats. It has processed no more messages than its
  -- sources checked, and counts at least as many chats with a delta as its sources do.
  pub scan-Sums :
      (mode : Mode) (deliver : Bool) (r : Radar) → Sums 0 (scan sv su mode deliver r).out
  unfolding scan
  scan-Sums live deliver r =
      after_sync-Sums deliver (run_sync sv su (begin_scan sv su live r))
        (run_sync-Fresh (begin_scan sv su live r) (begin-Fresh live [] r))
  scan-Sums dry_run deliver r =
      analyze_monitored-Sums dry_run [] deliver (begin_scan sv su dry_run r)
        (begin-Fresh dry_run [] r)
  scan-Sums process deliver r =
      analyze_monitored-Sums process [] deliver (begin_scan sv su process r)
        (begin-Fresh process [] r)
