-- ===== src/Pipeline/Balance.antt =====
-- Each source's counts are in balance at the end of every chat: `_analyze_chat` of src/analysis/pipeline.py.
use whatsapp_radar.Base.{
  ◌+◌, ◌≤◌, String, ◌≡◌, refl, ap, ◌∙◌, inl, inr, List, arith, length, Bool-cases,
}
use whatsapp_radar.Contract.{AnalysisResult, Parsed, ok, err, parse_analysis}
use whatsapp_radar.Keywords.{KeywordSignal}
use whatsapp_radar.Store.Rows.{Chat, StoredMessage}
use whatsapp_radar.Pipeline.State.{
  Mode, SourceFunnel, Funnels, on_funnel, ClassificationOutcome, ScanOutcome,
}
use whatsapp_radar.Pipeline.Funnel.{
  IsBalanced, AreBalanced, AreBalanced-on_funnel, on_funnel-on_funnel,
}
use whatsapp_radar.Pipeline.Services.{Answer, unavailable, answered, Services, Progress}
use whatsapp_radar.Pipeline.Analyze.{
  note_advance, tally, reject_at_stage1, fail_contract, commit_verdict, settle_verdict,
  settle_answer, analyze_chat, note_delta, note_passed, note_llm_call,
}

-- A source's counts inside a call: the delta is noted, then Stage 1 has passed, then Stage 2 answered.
abbrev IsNoted : SourceFunnel → Type 0
IsNoted f =
    (f.channels_with_delta ≡ f.stage1_passed + f.stage1_rejected + 1)
    × (f.llm_calls ≤ f.stage1_passed)
    × (f.actionable ≤ f.stage1_passed)
    × (f.cursors_advanced + 1 ≤ f.channels_with_delta)

abbrev IsPassed : SourceFunnel → Type 0
IsPassed f =
    (f.channels_with_delta ≡ f.stage1_passed + f.stage1_rejected)
    × (f.llm_calls + 1 ≤ f.stage1_passed)
    × (f.actionable + 1 ≤ f.stage1_passed)
    × (f.cursors_advanced + 1 ≤ f.channels_with_delta)

abbrev IsAnswered : SourceFunnel → Type 0
IsAnswered f =
    (f.channels_with_delta ≡ f.stage1_passed + f.stage1_rejected)
    × (f.llm_calls ≤ f.stage1_passed)
    × (f.actionable + 1 ≤ f.stage1_passed)
    × (f.cursors_advanced + 1 ≤ f.channels_with_delta)

-- One note to the source stands for all that were made, and takes a balanced source to `P`.
abbrev Reaches : String → (SourceFunnel → Type 0) → Funnels → Funnels → Type 0
Reaches s P g g' =
    (f : SourceFunnel → SourceFunnel) × ((x : SourceFunnel) → IsBalanced x → P (f x))
    × (g' ≡ on_funnel s f g)

Reaches-first :
    (s : String) (P : SourceFunnel → Type 0) (f : SourceFunnel → SourceFunnel) (g : Funnels)
    → ((x : SourceFunnel) → IsBalanced x → P (f x))
    → Reaches s P g (on_funnel s f g)
Reaches-first s P f g up = (f, up, refl)

Reaches-next :
    (s : String) (P Q : SourceFunnel → Type 0) (k : SourceFunnel → SourceFunnel) (g g' : Funnels)
    → ((x : SourceFunnel) → P x → Q (k x))
    → Reaches s P g g'
    → Reaches s Q g (on_funnel s k g')
Reaches-next s P Q k g g' up (f, h, e) =
    (λ x. k (f x), λ x b. up (f x) (h x b), ap (on_funnel s k) e ∙ on_funnel-on_funnel s k f g)

Reaches-weaken :
    (s : String) (P Q : SourceFunnel → Type 0) (g g' : Funnels)
    → ((x : SourceFunnel) → P x → Q x)
    → Reaches s P g g'
    → Reaches s Q g g'
Reaches-weaken s P Q g g' up (f, h, e) = (f, λ x b. up (f x) (h x b), e)

Reaches-end :
    (s : String) (g g' : Funnels) → Reaches s IsBalanced g g' → AreBalanced g → AreBalanced g'
Reaches-end s g g' (f, h, e) b = rw e (AreBalanced-on_funnel s f g h b)

module _ (sv : Services) (mode : Mode) (chat : Chat) (delta : List StoredMessage) where
  abbrev At : (SourceFunnel → Type 0) → Funnels → Progress → Type 0
  At P g p = Reaches chat.source P g p.out.source_funnels

  commit-IsBalanced :
      (signal : KeywordSignal) (co : ClassificationOutcome) (result : AnalysisResult) (g : Funnels)
      (p : Progress)
      → At IsAnswered g p
      → At IsBalanced g (commit_verdict sv mode chat signal delta co result p)
  unfolding commit_verdict
  commit-IsBalanced signal co result g p =
      Reaches-next chat.source IsAnswered IsBalanced (λ f. note_advance mode (tally sv result f)) g
        p.out.source_funnels (λ x (h1, h2, h3, h4). (h1, h2, ground arith, ground arith))

  reject-IsBalanced :
      (signal : KeywordSignal) (g : Funnels) (p : Progress)
      → At IsNoted g p
      → At IsBalanced g (reject_at_stage1 sv mode chat signal delta p)
  unfolding reject_at_stage1
  reject-IsBalanced signal g p =
      Reaches-next chat.source IsNoted IsBalanced
        (λ f. note_advance mode (record f { stage1_rejected = f.stage1_rejected + 1 })) g
        p.out.source_funnels (λ x (h1, h2, h3, h4). (omega (arith, h1), h2, h3, ground arith))

  settle_verdict-IsBalanced :
      (signal : KeywordSignal) (co : ClassificationOutcome) (g : Funnels) (p : Progress)
      (r : Parsed AnalysisResult)
      → At IsAnswered g p
      → At IsBalanced g (settle_verdict sv mode chat signal delta co p r)
  unfolding fail_contract
  settle_verdict-IsBalanced signal co g p (err message) =
      Reaches-weaken chat.source IsAnswered IsBalanced g p.out.source_funnels
        (λ x (h1, h2, h3, h4). (h1, h2, omega (arith, h3), omega (arith, h4)))
  settle_verdict-IsBalanced signal co g p (ok result) = commit-IsBalanced signal co result g p

  note_llm_call-IsAnswered :
      (co : ClassificationOutcome) (g : Funnels) (o : ScanOutcome)
      → Reaches chat.source IsPassed g o.source_funnels
      → Reaches chat.source IsAnswered g (note_llm_call sv chat co o).source_funnels
  note_llm_call-IsAnswered co g o h = elim (Bool-cases co.llm_called) [
    | inl e ↦ simp e (
        Reaches-next chat.source IsPassed IsAnswered (λ f. record f { llm_calls = f.llm_calls + 1 })
          g o.source_funnels (λ x (h1, h2, h3, h4). (h1, h2, h3, h4)) h)
    | inr e ↦ simp e (
        Reaches-weaken chat.source IsPassed IsAnswered g o.source_funnels
          (λ x (h1, h2, h3, h4). (h1, omega (arith, h2), h3, h4)) h)
  ]

  settle-IsBalanced :
      (signal : KeywordSignal) (answer : Answer) (g : Funnels) (p : Progress)
      → At IsPassed g p
      → At IsBalanced g (settle_answer sv mode chat signal delta answer p).0
  unfolding settle_answer
  settle-IsBalanced signal (unavailable e) g p h =
      Reaches-weaken chat.source IsPassed IsBalanced g p.out.source_funnels
        (λ x (h1, h2, h3, h4). (h1, omega (arith, h2), omega (arith, h3), omega (arith, h4))) h
  settle-IsBalanced signal (answered co) g p h =
      settle_verdict-IsBalanced signal co g (record p { out = note_llm_call sv chat co p.out })
        (parse_analysis sv.loads co.raw_output) (note_llm_call-IsAnswered co g p.out h)

  note_delta-IsNoted :
      (o : ScanOutcome)
      → Reaches chat.source IsNoted o.source_funnels
          (note_delta sv chat.source delta o).source_funnels
  note_delta-IsNoted o =
      Reaches-first chat.source IsNoted
        (λ f. record f {
          channels_with_delta = f.channels_with_delta + 1;
          messages_checked = f.messages_checked + length delta;
        })
        o.source_funnels (λ x (h1, h2, h3, h4). (omega (arith, h1), h2, h3, omega (arith, h4)))

  note_passed-IsPassed :
      (g : Funnels) (o : ScanOutcome)
      → Reaches chat.source IsNoted g o.source_funnels
      → Reaches chat.source IsPassed g (note_passed sv chat o).source_funnels
  note_passed-IsPassed g o =
      Reaches-next chat.source IsNoted IsPassed
        (λ f. record f { stage1_passed = f.stage1_passed + 1 }) g o.source_funnels
        (λ x (h1, h2, h3, h4). (omega (arith, h1), omega (arith, h2), omega (arith, h3), h4))

  pub analyze-AreBalanced :
      (p : Progress)
      → AreBalanced p.out.source_funnels
      → AreBalanced (analyze_chat sv mode chat delta p).0.out.source_funnels
  unfolding analyze_chat
  analyze-AreBalanced p b =
      let signal = sv.signal delta chat.source in
      let g = p.out.source_funnels in
      let noted : Progress = record p { out = note_delta sv chat.source delta p.out } in
      elim (Bool-cases signal.matched) [
        | inl e ↦
            let answer = sv.classify chat delta (sv.recall p.radar chat.id p.out.run_id) in
            let passed : Progress = record noted { out = note_passed sv chat noted.out } in
            simp e (
              Reaches-end chat.source g
                (settle_answer sv mode chat signal delta answer passed).0.out.source_funnels
                (settle-IsBalanced signal answer g passed
                  (note_passed-IsPassed g noted.out (note_delta-IsNoted p.out)))
                b)
        | inr e ↦ simp e (
            Reaches-end chat.source g
              (reject_at_stage1 sv mode chat signal delta noted).out.source_funnels
              (reject-IsBalanced signal g noted (note_delta-IsNoted p.out)) b)
      ]
