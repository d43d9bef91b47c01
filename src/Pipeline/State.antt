-- ===== src/Pipeline/State.antt =====
-- The records of a scan: src/analysis/source_funnel.py, `ScanOutcome` of src/analysis/pipeline.py, and
-- the tables of src/db/runs.py that it writes.
use whatsapp_radar.Base.{
  ℕ, suc, String, Bool, false, Option, none, some, List, [], ◌∷◌, ◌++◌, ◌==◌, eqb, update_where,
  if◌then◌else◌,
}
use whatsapp_radar.Contract.{AnalysisResult}
use whatsapp_radar.Keywords.{KeywordSignal}
use whatsapp_radar.Store.Rows.{StoredMessage, Db}

pub data Mode : Type 0 where
  live dry_run process : Mode

pub record SourceFunnel : Type 0 where
  pub sync_status : String
  pub sync_error : Option String
  pub chats_synced : ℕ
  pub messages_synced : ℕ
  pub monitored_channels : ℕ
  pub channels_with_delta : ℕ
  pub messages_checked : ℕ
  pub stage1_passed : ℕ
  pub stage1_rejected : ℕ
  pub llm_calls : ℕ
  pub actionable : ℕ
  pub cursors_advanced : ℕ

abbrev pub skipped : SourceFunnel
skipped = record {
  sync_status = "skipped";
  sync_error = none;
  chats_synced = 0;
  messages_synced = 0;
  monitored_channels = 0;
  channels_with_delta = 0;
  messages_checked = 0;
  stage1_passed = 0;
  stage1_rejected = 0;
  llm_calls = 0;
  actionable = 0;
  cursors_advanced = 0;
}

-- `dict[str, SourceFunnel]`
abbrev pub Funnels : Type 0
Funnels = List (String × SourceFunnel)

-- `ensure_source_funnel(funnels, source)` and the assignments to the funnel that it returns.
unfoldable pub on_funnel : String → (SourceFunnel → SourceFunnel) → Funnels → Funnels
on_funnel source f [] = (source, f skipped) ∷ []
on_funnel source f ((j, x) ∷ g) =
    if j == source then (j, f x) ∷ g else (j, x) ∷ on_funnel source f g

-- `ClassificationOutcome`
pub record ClassificationOutcome : Type 0 where
  pub raw_output : String
  pub llm_called : Bool
  pub system_prompt : Option String
  pub user_prompt : Option String
  pub raw_response : Option String
  pub stop_reason : Option String

-- A row of `analysis_items`: the columns of the result, and the reminder made for it.
pub record AnalysisItem : Type 0 where
  pub id : ℕ
  pub run_id : ℕ
  pub chat_id : ℕ
  pub result : AnalysisResult
  pub calendar_event_id : Option String

-- A row of `analysis_trace`: the delta and what each stage made of it.
pub record Trace : Type 0 where
  pub run_id : ℕ
  pub chat_id : ℕ
  pub source : String
  pub delta : List StoredMessage
  pub signal : KeywordSignal
  pub outcome : Option ClassificationOutcome
  pub result : Option AnalysisResult
  pub final_action : String
  pub telegram_text : Option String
  pub error : Option String

-- The counters of `record_run_funnel`.
pub record RunFunnel : Type 0 where
  pub chats_synced : ℕ
  pub messages_synced : ℕ
  pub chats_monitored : ℕ
  pub stage1_passed : ℕ
  pub stage2_llm_calls : ℕ
  pub transcriptions : ℕ
  pub actionable : ℕ
  pub notification_status : String
  pub source_funnels : Funnels

-- A row of `review_runs`.
pub record Run : Type 0 where
  pub id : ℕ
  pub kind : String
  pub mode : Mode
  pub days : Option ℕ
  pub started_at : String
  pub completed_at : Option String
  pub status : String
  pub error : Option String
  pub chats_reviewed : ℕ
  pub funnel : Option RunFunnel

-- A row of `notifications`.
pub record Notification : Type 0 where
  pub run_id : ℕ
  pub status : String

-- The operational alerts: all sources offline, or the classifier unreachable with the named chats
-- left unanalysed.
pub data Alert : Type 0 where
  sources_offline : String → Alert
  classifier_offline : String → List String → Alert

-- The store, and the alerts handed to the notifier.
pub record Radar : Type 0 where
  pub db : Db
  pub items : List AnalysisItem
  pub last_item_id : ℕ
  pub traces : List Trace
  pub runs : List Run
  pub last_run_id : ℕ
  pub notifications : List Notification
  pub alerts : List Alert
  pub last_nudge_at : Option String

pub record ScanOutcome : Type 0 where
  pub run_id : ℕ
  pub mode : Mode
  pub chats_synced : ℕ
  pub messages_synced : ℕ
  pub chats_monitored : ℕ
  pub chats_with_delta : ℕ
  pub messages_processed : ℕ
  pub transcriptions : ℕ
  pub stage1_passed : ℕ
  pub stage2_llm_calls : ℕ
  pub actionable : ℕ
  pub notification_status : String
  pub tripwire_scanned : ℕ
  pub tripwire_hits : ℕ
  pub tripwire_truncated : Bool
  pub tripwire_nudge_status : String
  pub aborted : Bool
  pub errors : List (ℕ × String)
  pub source_errors : List (String × String)
  pub source_funnels : Funnels
  pub digest : Option (List AnalysisItem)

abbrev pub new_outcome : ℕ → Mode → ScanOutcome
new_outcome run_id mode = record {
  run_id = run_id;
  mode = mode;
  chats_synced = 0;
  messages_synced = 0;
  chats_monitored = 0;
  chats_with_delta = 0;
  messages_processed = 0;
  transcriptions = 0;
  stage1_passed = 0;
  stage2_llm_calls = 0;
  actionable = 0;
  notification_status = "none";
  tripwire_scanned = 0;
  tripwire_hits = 0;
  tripwire_truncated = false;
  tripwire_nudge_status = "disabled";
  aborted = false;
  errors = [];
  source_errors = [];
  source_funnels = [];
  digest = none;
}

-- `store.insert_analysis_item`, and the id of the row.
unfoldable pub insert_analysis_item : ℕ → ℕ → AnalysisResult → Radar → Radar × ℕ
insert_analysis_item run_id chat_id result r = (
  record r {
    items =
        r.items
        ++ record {
          id = suc r.last_item_id;
          run_id = run_id;
          chat_id = chat_id;
          result = result;
          calendar_event_id = none;
        }
          ∷ [];
    last_item_id = suc r.last_item_id;
  },
  suc r.last_item_id,
)

-- `store.set_calendar_event_id`
unfoldable pub set_calendar_event_id : ℕ → String → Radar → Radar
set_calendar_event_id item_id event_id r = record r {
  items =
      update_where (λ i. eqb i.id item_id) (λ i. record i { calendar_event_id = some event_id })
        r.items;
}

abbrev pub write_trace : Trace → Radar → Radar
write_trace t r = record r { traces = r.traces ++ t ∷ [] }

-- `store.start_run`
unfoldable pub start_run : String → String → Mode → Option ℕ → Radar → Radar × ℕ
start_run now kind mode days r = (
  record r {
    runs =
        r.runs
        ++ record {
          id = suc r.last_run_id;
          kind = kind;
          mode = mode;
          days = days;
          started_at = now;
          completed_at = none;
          status = "running";
          error = none;
          chats_reviewed = 0;
          funnel = none;
        }
          ∷ [];
    last_run_id = suc r.last_run_id;
  },
  suc r.last_run_id,
)

-- `store.finish_run`, then `store.record_run_funnel`.
unfoldable pub close_run : String → ℕ → String → ℕ → RunFunnel → Radar → Radar
close_run now run_id status chats_reviewed funnel r = record r {
  runs =
      update_where (λ x. eqb x.id run_id)
        (λ x. record x {
          completed_at = some now;
          status = status;
          error = none;
          chats_reviewed = chats_reviewed;
          funnel = some funnel;
        })
        r.runs;
}
