-- ===== src/Pipeline/Analyze.antt =====
-- src/analysis/pipeline.py: `_analyze_chat` and its branches.
use Prim.Native.String.{count}
use whatsapp_radar.Base.{
  ◌+◌, String, not, Option, none, some, List, [], ◌∷◌, ◌++◌, is_text, length, if◌then◌else◌,
}
use whatsapp_radar.Base.Text.{join, decimal}
use whatsapp_radar.Contract.{AnalysisResult, Parsed, ok, err, parse_analysis}
use whatsapp_radar.Keywords.{KeywordSignal}
use whatsapp_radar.Store.Rows.{Chat, StoredMessage}
use whatsapp_radar.Pipeline.State.{
  Mode, SourceFunnel, on_funnel, ClassificationOutcome, ScanOutcome, insert_analysis_item,
  write_trace,
}
use whatsapp_radar.Pipeline.Services.{
  Answer, unavailable, answered, Services, no_verdict, Progress, is_dry, advance,
}
use whatsapp_radar.Pipeline.Reminders.{create_reminder_if_eligible}

-- `if mode in ("live", "process"): source_funnel.cursors_advanced += 1`
abbrev pub note_advance : Mode → SourceFunnel → SourceFunnel
note_advance mode f = record f {
  cursors_advanced = if is_dry mode then f.cursors_advanced else f.cursors_advanced + 1;
}

-- `_contract_failure`
unfoldable pub contract_failure : ClassificationOutcome → String → String × String
contract_failure co message =
    if is_text "max_tokens" co.stop_reason
    then (
      "llm_truncated",
      join "" (
          "model hit max_tokens before emitting parseable JSON (raw "
          ∷ decimal (elim co.raw_response [ none ↦ 0 | some s ↦ count s ])
          ∷ " chars) — use a model that answers with JSON directly or raise hub.max_tokens"
          ∷ []),
    )
    else ("contract_error", message)

module _ (sv : Services) where
  -- `note_delta_funnel`
  abbrev pub note_delta : String → List StoredMessage → ScanOutcome → ScanOutcome
  note_delta source delta o = record o {
    source_funnels =
        on_funnel source
          (λ f. record f {
            channels_with_delta = f.channels_with_delta + 1;
            messages_checked = f.messages_checked + length delta;
          })
          o.source_funnels;
  }

  -- `_reject_at_stage1`
  unfoldable pub reject_at_stage1 :
      Mode → Chat → KeywordSignal → List StoredMessage → Progress → Progress
  unfolding advance
  reject_at_stage1 mode chat signal delta p =
      let stored = (insert_analysis_item p.out.run_id chat.id no_verdict p.radar).0 in
      let traced =
        write_trace
          (record {
            run_id = p.out.run_id;
            chat_id = chat.id;
            source = chat.source;
            delta = delta;
            signal = signal;
            outcome = none;
            result = some no_verdict;
            final_action = "not_actionable";
            telegram_text = none;
            error = none;
          })
          stored in
      record {
        radar = advance sv.now mode chat.id delta none traced;
        out = record p.out {
          messages_processed = p.out.messages_processed + length delta;
          source_funnels =
              on_funnel chat.source
                (λ f. note_advance mode (record f { stage1_rejected = f.stage1_rejected + 1 }))
                p.out.source_funnels;
        };
      }

  -- The branch of a `ContractError`: a trace, an error, and nothing else.
  unfoldable pub fail_contract :
      Chat
      → KeywordSignal
      → List StoredMessage
      → ClassificationOutcome
      → String
      → Progress
      → Progress
  unfolding contract_failure
  fail_contract chat signal delta co message p =
      let (final_action, text) = contract_failure co message in
      record {
        radar =
            write_trace
              (record {
                run_id = p.out.run_id;
                chat_id = chat.id;
                source = chat.source;
                delta = delta;
                signal = signal;
                outcome = some co;
                result = none;
                final_action = final_action;
                telegram_text = none;
                error = some text;
              })
              p.radar;
        out = record p.out { errors = p.out.errors ++ (chat.id, text) ∷ [] };
      }

  -- `_tally_verdict`'s counts.
  abbrev pub tally : AnalysisResult → SourceFunnel → SourceFunnel
  tally result f = record f {
    actionable = if result.action_required then f.actionable + 1 else f.actionable;
  }

  -- The branch of a verdict: the item, its reminder, the trace, and only then the cursors.
  unfoldable pub commit_verdict :
      Mode
      → Chat
      → KeywordSignal
      → List StoredMessage
      → ClassificationOutcome
      → AnalysisResult
      → Progress
      → Progress
  unfolding advance
  commit_verdict mode chat signal delta co result p =
      let (stored, item_id) = insert_analysis_item p.out.run_id chat.id result p.radar in
      let reminded = create_reminder_if_eligible sv mode chat item_id result stored in
      let traced =
        write_trace
          (record {
            run_id = p.out.run_id;
            chat_id = chat.id;
            source = chat.source;
            delta = delta;
            signal = signal;
            outcome = some co;
            result = some result;
            final_action = if result.action_required then "actionable" else "not_actionable";
            telegram_text = if result.action_required then some (sv.render chat result) else none;
            error = none;
          })
          reminded in
      record {
        radar = advance sv.now mode chat.id delta result.summary traced;
        out = record p.out {
          messages_processed = p.out.messages_processed + length delta;
          actionable = if result.action_required then p.out.actionable + 1 else p.out.actionable;
          source_funnels =
              on_funnel chat.source (λ f. note_advance mode (tally result f)) p.out.source_funnels;
        };
      }

  abbrev pub note_llm_call : Chat → ClassificationOutcome → ScanOutcome → ScanOutcome
  note_llm_call chat co o = record o {
    stage2_llm_calls = if co.llm_called then o.stage2_llm_calls + 1 else o.stage2_llm_calls;
    source_funnels =
        if co.llm_called
        then on_funnel chat.source (λ f. record f { llm_calls = f.llm_calls + 1 }) o.source_funnels
        else o.source_funnels;
  }

  abbrev pub settle_verdict :
      Mode
      → Chat
      → KeywordSignal
      → List StoredMessage
      → ClassificationOutcome
      → Progress
      → Parsed AnalysisResult
      → Progress
  settle_verdict mode chat signal delta co p (err message) =
      fail_contract chat signal delta co message p
  settle_verdict mode chat signal delta co p (ok result) =
      commit_verdict mode chat signal delta co result p

  -- From the answer of Stage 2 on. The second part is the error that stops the run.
  unfoldable pub settle_answer :
      Mode
      → Chat
      → KeywordSignal
      → List StoredMessage
      → Answer
      → Progress
      → Progress × Option String
  settle_answer mode chat signal delta (unavailable e) p =
      (record p { out = record p.out { errors = p.out.errors ++ (chat.id, e) ∷ [] } }, some e)
  settle_answer mode chat signal delta (answered co) p = (
    settle_verdict mode chat signal delta co (record p { out = note_llm_call chat co p.out })
        (parse_analysis sv.loads co.raw_output),
    none,
  )

  abbrev pub note_passed : Chat → ScanOutcome → ScanOutcome
  note_passed chat o = record o {
    stage1_passed = o.stage1_passed + 1;
    source_funnels =
        on_funnel chat.source (λ f. record f { stage1_passed = f.stage1_passed + 1 })
          o.source_funnels;
  }

  -- `_analyze_chat`
  unfoldable pub analyze_chat :
      Mode → Chat → List StoredMessage → Progress → Progress × Option String
  analyze_chat mode chat delta p =
      let signal = sv.signal delta chat.source in
      let noted = record p { out = note_delta chat.source delta p.out } in
      if not signal.matched
      then (reject_at_stage1 mode chat signal delta noted, none)
      else settle_answer mode chat signal delta
          (sv.classify chat delta (sv.recall p.radar chat.id p.out.run_id))
          (record noted { out = note_passed chat noted.out })
