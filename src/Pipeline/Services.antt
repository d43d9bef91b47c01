-- ===== src/Pipeline/Services.antt =====
-- What a scan calls outside the store, the state that its phases mutate, and `_advance` of
-- src/analysis/pipeline.py.
use whatsapp_radar.Base.{ℕ, String, Bool, true, false, Option, none, List, [], if◌then◌else◌}
use whatsapp_radar.Base.Json.{Value}
use whatsapp_radar.Contract.{AnalysisResult}
use whatsapp_radar.Keywords.{KeywordSignal}
use whatsapp_radar.Store.Rows.{Chat, StoredMessage}
use whatsapp_radar.Review.{advance_family_cursors}
use whatsapp_radar.Pipeline.State.{
  Mode, live, dry_run, process, ClassificationOutcome, Radar, ScanOutcome,
}

-- What Stage 2 answers: the hub cannot be reached, or a classification.
pub data Answer : Type 0 where
  unavailable : String → Answer
  answered : ClassificationOutcome → Answer

-- What the scan calls outside the store. `classify` answers for each chat of the run; `insert_event`
-- is the calendar's answer to a reminder, `none` for any failure on the way; `recall` renders the
-- family's recent alerts from the store; `render` is the digest text of an item.
pub record Services : Type 0 where
  pub now : String
  pub loads : String → Option Value
  pub signal : List StoredMessage → String → KeywordSignal
  pub recall : Radar → ℕ → ℕ → Option String
  pub classify : Chat → List StoredMessage → Option String → Answer
  pub calendar_client : Bool
  pub reminder_calendar_id : String
  pub insert_event : Chat → AnalysisResult → Option String
  pub render : Chat → AnalysisResult → String

abbrev pub no_verdict : AnalysisResult
no_verdict = record {
  action_required = false;
  priority = none;
  summary = none;
  suggested_next_action = none;
  deadline = none;
  confidence = none;
  evidence_message_ids = [];
  deadline_date = none;
  child = none;
  task_category = none;
  prep_complexity = none;
}

-- The store and the outcome, which the phases of a scan mutate.
pub record Progress : Type 0 where
  pub radar : Radar
  pub out : ScanOutcome

abbrev pub is_dry : Mode → Bool
is_dry dry_run = true
is_dry live = false
is_dry process = false

-- `_advance`
unfoldable pub advance : String → Mode → ℕ → List StoredMessage → Option String → Radar → Radar
advance now mode chat_id delta summary r =
    if is_dry mode
    then r
    else record r { db = advance_family_cursors now chat_id delta summary r.db }
