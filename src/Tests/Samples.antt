-- ===== src/Tests/Samples.antt =====
-- Rows, legs and services that the examples run on.
use whatsapp_radar.Base.{
  ℕ, String, true, false, Option, none, some, List, [], ◌∷◌, ◌==◌, eqb, if◌then◌else◌,
}
use whatsapp_radar.Base.Json.{Value, bool, str, arr, cons, nil, obj, end, field}
use whatsapp_radar.TravelBlocks.Model.{Datetime, aware, naive, Runtime, PlannedLeg, planned_hash}
use whatsapp_radar.TravelBlocks.Blocks.{ExistingBlock}
use whatsapp_radar.Store.Rows.{Chat, MessageRecord, StoredMessage, Db}
use whatsapp_radar.Keywords.{KeywordRule, has_actionable_signal}
use whatsapp_radar.Pipeline.State.{live, Run, Radar}
use whatsapp_radar.Pipeline.Services.{answered, Services}
use whatsapp_radar.Pipeline.Loop.{Setup}

abbrev pub iso : Datetime → String
iso (aware instant offset) = if eqb instant 100 then "t100" else "t200"
iso (naive local) = "local"

abbrev pub un_iso : String → Option Datetime
un_iso s =
    if s == "t100" then some (aware 100 "Z") else if s == "t200" then some (aware 200 "Z") else none

abbrev pub runtime : Runtime
runtime = record {
  sha256_hex = λ s. s;
  isoformat = iso;
  fromisoformat = un_iso;
  str_of_other = λ v. "other";
}

abbrev pub outbound : PlannedLeg
outbound = record {
  person = "ana";
  calendar_id = "family";
  leg = "outbound";
  source_event_id = "dentist";
  origin = "home";
  destination = "clinic";
  start = aware 100 "Z";
  finish = aware 200 "Z";
  source_start = aware 200 "Z";
  source_end = aware 200 "Z";
  minutes = 20;
}

abbrev pub block : (event_id source_event_id leg hash start : String) → ExistingBlock
block event_id source_event_id leg hash start = record {
  calendar_id = "family";
  event_id = event_id;
  source_event_id = source_event_id;
  leg = leg;
  schema_version = "1";
  stored_hash = hash;
  start = start;
  resource = end;
}

-- The leg's block, a second block of it, the block of an event that is gone, the block of an event
-- past the plan, and the block of a leg that could not be planned.
abbrev pub blocks : List ExistingBlock
blocks =
    block "b1" "dentist" "outbound" (planned_hash runtime outbound) "t100"
    ∷ block "b2" "dentist" "outbound" (planned_hash runtime outbound) "t100"
    ∷ block "b3" "gone" "outbound" "h" "t100"
    ∷ block "b4" "later" "outbound" "h" "t200"
    ∷ block "b5" "unknown" "return" "h" "t100"
    ∷ []

abbrev pub unplanned : List String
unplanned = "family::unknown::return" ∷ []

abbrev pub chat : ℕ → String → String → Option ℕ → Chat
chat id source status parent = record {
  id = id;
  source = source;
  source_chat_id = "s";
  display_name = "School";
  alias = none;
  chat_type = "group";
  status = status;
  first_seen_at = "2024-01-01";
  last_seen_at = "2024-01-01";
  last_message_at = none;
  parent_chat_id = parent;
}

abbrev pub message :
    (id chat_id : ℕ) (at body : String) (transcription : Option String) → StoredMessage
message id chat_id at body transcription = record {
  id = id;
  chat_id = chat_id;
  source_message_id = at;
  message_timestamp = at;
  text = some body;
  sender_label = none;
  message_type = "text";
  transcription_status = transcription;
  media_path = elim transcription [ none ↦ none | some status ↦ some "voice.ogg" ];
  summary = none;
  task_exported_at = none;
  raw = end;
}

abbrev pub delivered : String → MessageRecord
delivered at = record {
  source_message_id = at;
  message_timestamp = at;
  text = some "meeting";
  sender_label = none;
  message_type = "text";
  transcription_status = none;
  media_path = none;
  raw = end;
}

-- A monitored group with a linked chat, another monitored group, and a Gmail sender that is only
-- discovered. The group's second message waits for its transcript.
abbrev pub db : Db
db = record {
  chats =
      chat 1 "whatsapp" "monitored" none
      ∷ chat 2 "whatsapp" "discovered" (some 1)
      ∷ chat 3 "gmail" "discovered" none
      ∷ chat 4 "whatsapp" "monitored" none
      ∷ [];
  last_chat_id = 4;
  messages =
      message 1 1 "2024-02-01" "meeting on monday" none
      ∷ message 2 2 "2024-02-02" "hello" none
      ∷ message 3 1 "2024-02-03" "voice" (some "pending")
      ∷ message 4 3 "2024-01-15" "offer" none
      ∷ message 5 4 "2024-02-04" "hello" none
      ∷ [];
  last_message_id = 5;
  states = [];
}

abbrev pub rules : String → List KeywordRule
rules source = record { bucket = "event"; root = "meeting" } ∷ []

abbrev pub delta : List StoredMessage
delta = message 1 1 "2024-02-01" "meeting on monday" none ∷ []

-- `{"action_required": true, "priority": "high", "evidence_message_ids": ["2024-02-01"]}`
abbrev pub loads : String → Option Value
loads s = some (
    obj (
      field "action_required" (bool true) (
        field "priority" (str "high")
          (field "evidence_message_ids" (arr (cons (str "2024-02-01") nil)) end))))

abbrev pub services : Services
services = record {
  now = "2024-03-01";
  loads = loads;
  signal = has_actionable_signal (λ s. s) rules;
  recall = λ r chat_id run_id. none;
  classify = λ c ms prior. answered (record {
    raw_output = "verdict";
    llm_called = true;
    system_prompt = none;
    user_prompt = none;
    raw_response = some "verdict";
    stop_reason = none;
  });
  calendar_client = true;
  reminder_calendar_id = "family";
  insert_event = λ c r. some "event";
  render = λ c r. "School";
}

abbrev pub setup : Setup
setup = record {
  sources = "whatsapp" ∷ "gmail" ∷ [];
  transcription_enabled = true;
  since = none;
  days = none;
  sync = λ d. record {
    db = d;
    results =
        record {
          source = "whatsapp";
          succeeded = true;
          error = none;
          chats_seen = 3;
          messages_added = 0;
        }
        ∷ [];
    source_errors = [];
    chats_seen = 3;
    messages_added = 0;
  };
  transcribe = λ d. (d, 0);
  run_tripwire = λ r. record {
    scanned = 1;
    hits = 0;
    truncated = false;
    nudge_status = "no_hits";
    sent_at = none;
  };
  send = λ items. "sent";
}

abbrev pub radar : Radar
radar = record {
  db = db;
  items = [];
  last_item_id = 0;
  traces = [];
  runs = [];
  last_run_id = 0;
  notifications = [];
  alerts = [];
  last_nudge_at = none;
}

abbrev pub run : (id : ℕ) (kind status : String) → Run
run id kind status = record {
  id = id;
  kind = kind;
  mode = live;
  days = none;
  started_at = "2024-03-01";
  completed_at = none;
  status = status;
  error = none;
  chats_reviewed = 0;
  funnel = none;
}
