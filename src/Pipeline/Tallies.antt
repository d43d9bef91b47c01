-- ===== src/Pipeline/Tallies.antt =====
-- The totals of a scan are the sums of its sources' counts: `ScanOutcome` of src/analysis/pipeline.py.
use whatsapp_radar.Base.{
  ℕ, ◌+◌, ◌≤◌, String, ◌≡◌, refl, ◌∙◌, inl, inr, List, arith, length, Bool-cases, if◌then◌else◌,
}
use whatsapp_radar.Contract.{AnalysisResult, Parsed, ok, err, parse_analysis}
use whatsapp_radar.Keywords.{KeywordSignal}
use whatsapp_radar.Store.Rows.{Chat, StoredMessage}
use whatsapp_radar.Pipeline.State.{
  Mode, SourceFunnel, Funnels, on_funnel, ClassificationOutcome, ScanOutcome,
}
use whatsapp_radar.Pipeline.Funnel.{total, total-on_funnel}
use whatsapp_radar.Pipeline.Services.{Answer, unavailable, answered, Services, Progress}
use whatsapp_radar.Pipeline.Analyze.{
  note_advance, tally, reject_at_stage1, fail_contract, commit_verdict, settle_verdict,
  settle_answer, analyze_chat, note_delta, note_passed, note_llm_call,
}

-- The totals of an outcome are the sums over its sources, `n` chats with a delta not yet being noted.
abbrev pub Sums : ℕ → ScanOutcome → Type 0
Sums n o =
    (total (λ f. f.stage1_passed) o.source_funnels ≡ o.stage1_passed)
    × (total (λ f. f.llm_calls) o.source_funnels ≡ o.stage2_llm_calls)
    × (total (λ f. f.actionable) o.source_funnels ≡ o.actionable)
    × (total (λ f. f.monitored_channels) o.source_funnels ≡ o.chats_monitored)
    × (o.messages_processed ≤ total (λ f. f.messages_checked) o.source_funnels)
    × (total (λ f. f.channels_with_delta) o.source_funnels + n ≤ o.chats_with_delta)

-- What the six totals of two families of funnels differ by.
abbrev pub Adds : ℕ → ℕ → ℕ → ℕ → ℕ → ℕ → Funnels → Funnels → Type 0
Adds a b c d e k g g' =
    (total (λ f. f.stage1_passed) g' ≡ total (λ f. f.stage1_passed) g + a)
    × (total (λ f. f.llm_calls) g' ≡ total (λ f. f.llm_calls) g + b)
    × (total (λ f. f.actionable) g' ≡ total (λ f. f.actionable) g + c)
    × (total (λ f. f.monitored_channels) g' ≡ total (λ f. f.monitored_channels) g + d)
    × (total (λ f. f.messages_checked) g' ≡ total (λ f. f.messages_checked) g + e)
    × (total (λ f. f.channels_with_delta) g' ≡ total (λ f. f.channels_with_delta) g + k)

-- Every total goes up by what the note adds.
pub totals-on_funnel :
    (s : String) (f : SourceFunnel → SourceFunnel) (g : Funnels) (a b c d e k : ℕ)
    → ((x : SourceFunnel)
        → ((f x).stage1_passed ≡ x.stage1_passed + a)
          × ((f x).llm_calls ≡ x.llm_calls + b)
          × ((f x).actionable ≡ x.actionable + c)
          × ((f x).monitored_channels ≡ x.monitored_channels + d)
          × ((f x).messages_checked ≡ x.messages_checked + e)
          × ((f x).channels_with_delta ≡ x.channels_with_delta + k))
    → Adds a b c d e k g (on_funnel s f g)
totals-on_funnel s f g a b c d e k up = (
  total-on_funnel (λ f. f.stage1_passed) a s f g (λ x. (up x).0) refl,
  total-on_funnel (λ f. f.llm_calls) b s f g (λ x. (up x).1) refl,
  total-on_funnel (λ f. f.actionable) c s f g (λ x. (up x).2) refl,
  total-on_funnel (λ f. f.monitored_channels) d s f g (λ x. (up x).3) refl,
  total-on_funnel (λ f. f.messages_checked) e s f g (λ x. (up x).4) refl,
  total-on_funnel (λ f. f.channels_with_delta) k s f g (λ x. (up x).5) refl,
)

-- The sums, with `n` messages checked that are not processed.
abbrev Checked : ℕ → ScanOutcome → Type 0
Checked n o = o.messages_processed + n ≤ total (λ f. f.messages_checked) o.source_funnels

module _ (sv : Services) (mode : Mode) (chat : Chat) (delta : List StoredMessage) where
  Sums-note_delta :
      (o : ScanOutcome)
      → Sums 1 o
      → Sums 0 (note_delta sv chat.source delta o)
        × Checked (length delta) (note_delta sv chat.source delta o)
  Sums-note_delta o (h1, h2, h3, h4, h5, h6) =
      let (t1, t2, t3, t4, t5, t6) =
        totals-on_funnel chat.source
          (λ f. record f {
            channels_with_delta = f.channels_with_delta + 1;
            messages_checked = f.messages_checked + length delta;
          })
          o.source_funnels 0 0 0 0 (length delta) 1
          (λ x. (omega arith, omega arith, omega arith, omega arith, omega arith, omega arith)) in
      (
        (
          t1 ∙ omega (arith, h1),
          t2 ∙ omega (arith, h2),
          t3 ∙ omega (arith, h3),
          t4 ∙ omega (arith, h4),
          omega (arith, t5, h5),
          omega (arith, t6, h6),
        ),
        omega (arith, t5, h5),
      )

  Sums-note_passed :
      (n : ℕ) (o : ScanOutcome)
      → Sums 0 o
      → Checked n o
      → Sums 0 (note_passed sv chat o) × Checked n (note_passed sv chat o)
  Sums-note_passed n o (h1, h2, h3, h4, h5, h6) k =
      let (t1, t2, t3, t4, t5, t6) =
        totals-on_funnel chat.source (λ f. record f { stage1_passed = f.stage1_passed + 1 })
          o.source_funnels 1 0 0 0 0 0
          (λ x. (omega arith, omega arith, omega arith, omega arith, omega arith, omega arith)) in
      (
        (
          t1 ∙ omega (arith, h1),
          t2 ∙ omega (arith, h2),
          t3 ∙ omega (arith, h3),
          t4 ∙ omega (arith, h4),
          omega (arith, t5, h5),
          omega (arith, t6, h6),
        ),
        omega (arith, t5, k),
      )

  Sums-note_llm_call :
      (n : ℕ) (co : ClassificationOutcome) (o : ScanOutcome)
      → Sums 0 o
      → Checked n o
      → Sums 0 (note_llm_call sv chat co o) × Checked n (note_llm_call sv chat co o)
  Sums-note_llm_call n co o (h1, h2, h3, h4, h5, h6) k = elim (Bool-cases co.llm_called) [
    | inl e ↦
        let (t1, t2, t3, t4, t5, t6) =
          totals-on_funnel chat.source (λ f. record f { llm_calls = f.llm_calls + 1 })
            o.source_funnels 0 1 0 0 0 0
            (λ x. (omega arith, omega arith, omega arith, omega arith, omega arith, omega arith)) in
        simp e (
          (
            t1 ∙ omega (arith, h1),
            t2 ∙ omega (arith, h2),
            t3 ∙ omega (arith, h3),
            t4 ∙ omega (arith, h4),
            omega (arith, t5, h5),
            omega (arith, t6, h6),
          ),
          omega (arith, t5, k),
        )
    | inr e ↦ simp e ((h1, h2, h3, h4, h5, h6), k)
  ]

  Sums-commit :
      (signal : KeywordSignal) (co : ClassificationOutcome) (result : AnalysisResult) (p : Progress)
      → Sums 0 p.out
      → Checked (length delta) p.out
      → Sums 0 (commit_verdict sv mode chat signal delta co result p).out
  unfolding commit_verdict
  Sums-commit signal co result p (h1, h2, h3, h4, h5, h6) k =
      let (t1, t2, t3, t4, t5, t6) =
        totals-on_funnel chat.source (λ f. note_advance mode (tally sv result f))
          p.out.source_funnels 0 0 (if result.action_required then 1 else 0) 0 0 0
          (λ x. (omega arith, omega arith, ground arith, omega arith, omega arith, omega arith)) in
      (
        t1 ∙ omega (arith, h1),
        t2 ∙ omega (arith, h2),
        ground (arith, t3, h3),
        t4 ∙ omega (arith, h4),
        omega (arith, t5, k),
        omega (arith, t6, h6),
      )

  Sums-reject :
      (signal : KeywordSignal) (p : Progress)
      → Sums 0 p.out
      → Checked (length delta) p.out
      → Sums 0 (reject_at_stage1 sv mode chat signal delta p).out
  unfolding reject_at_stage1
  Sums-reject signal p (h1, h2, h3, h4, h5, h6) k =
      let (t1, t2, t3, t4, t5, t6) =
        totals-on_funnel chat.source
          (λ f. note_advance mode (record f { stage1_rejected = f.stage1_rejected + 1 }))
          p.out.source_funnels 0 0 0 0 0 0
          (λ x. (omega arith, omega arith, omega arith, omega arith, omega arith, omega arith)) in
      (
        t1 ∙ omega (arith, h1),
        t2 ∙ omega (arith, h2),
        t3 ∙ omega (arith, h3),
        t4 ∙ omega (arith, h4),
        omega (arith, t5, k),
        omega (arith, t6, h6),
      )

  Sums-settle_verdict :
      (signal : KeywordSignal) (co : ClassificationOutcome) (p : Progress)
      (r : Parsed AnalysisResult)
      → Sums 0 p.out
      → Checked (length delta) p.out
      → Sums 0 (settle_verdict sv mode chat signal delta co p r).out
  unfolding fail_contract
  Sums-settle_verdict signal co p (err message) h k = h
  Sums-settle_verdict signal co p (ok result) h k = Sums-commit signal co result p h k

  Sums-settle :
      (signal : KeywordSignal) (answer : Answer) (p : Progress)
      → Sums 0 p.out
      → Checked (length delta) p.out
      → Sums 0 (settle_answer sv mode chat signal delta answer p).0.out
  unfolding settle_answer
  Sums-settle signal (unavailable e) p h k = h
  Sums-settle signal (answered co) p h k =
      let (h', k') = Sums-note_llm_call (length delta) co p.out h k in
      Sums-settle_verdict signal co (record p { out = note_llm_call sv chat co p.out })
        (parse_analysis sv.loads co.raw_output) h' k'

  pub Sums-analyze :
      (p : Progress) → Sums 1 p.out → Sums 0 (analyze_chat sv mode chat delta p).0.out
  unfolding analyze_chat
  Sums-analyze p h =
      let signal = sv.signal delta chat.source in
      let (h', k') = Sums-note_delta p.out h in
      let noted : Progress = record p { out = note_delta sv chat.source delta p.out } in
      elim (Bool-cases signal.matched) [
        | inl e ↦
            let (h'', k'') = Sums-note_passed (length delta) noted.out h' k' in
            simp e (
              Sums-settle signal (sv.classify chat delta (sv.recall p.radar chat.id p.out.run_id))
                (record noted { out = note_passed sv chat noted.out }) h'' k'')
        | inr e ↦ simp e (Sums-reject signal noted h' k')
      ]
