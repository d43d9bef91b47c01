-- ===== src/Store/Rows.antt =====
-- The tables of src/db/schema.sql that the review reads and writes, and src/models.py's records.
use whatsapp_radar.Base.{ℕ, String, Option, List, []}
use whatsapp_radar.Base.Json.{Fields}

pub record ChatRecord : Type 0 where
  pub source_chat_id : String
  pub display_name : String
  pub chat_type : String
  pub source : String

-- A row of `chats`.
pub record Chat : Type 0 where
  pub id : ℕ
  pub source : String
  pub source_chat_id : String
  pub display_name : String
  pub alias : Option String
  pub chat_type : String
  pub status : String
  pub first_seen_at : String
  pub last_seen_at : String
  pub last_message_at : Option String
  pub parent_chat_id : Option ℕ

pub record MessageRecord : Type 0 where
  pub source_message_id : String
  pub message_timestamp : String
  pub text : Option String
  pub sender_label : Option String
  pub message_type : String
  pub transcription_status : Option String
  pub media_path : Option String
  pub raw : Fields

-- A row of `messages`, as `_to_stored` reads it; `raw_json` is kept decoded.
pub record StoredMessage : Type 0 where
  pub id : ℕ
  pub chat_id : ℕ
  pub source_message_id : String
  pub message_timestamp : String
  pub text : Option String
  pub sender_label : Option String
  pub message_type : String
  pub transcription_status : Option String
  pub media_path : Option String
  pub summary : Option String
  pub task_exported_at : Option String
  pub raw : Fields

-- `{"last_summary": …, "last_message_id": …}`
pub record RollingContext : Type 0 where
  pub last_summary : Option String
  pub last_message_id : String

-- A row of `chat_review_state`.
pub record ReviewState : Type 0 where
  pub chat_id : ℕ
  pub last_reviewed_at : String
  pub last_processed_message_id : ℕ
  pub last_processed_message_timestamp : String
  pub rolling_context : Option RollingContext

-- The tables of chats, messages and cursors.
pub record Db : Type 0 where
  pub chats : List Chat
  pub last_chat_id : ℕ
  pub messages : List StoredMessage
  pub last_message_id : ℕ
  pub states : List ReviewState

abbrev pub empty : Db
empty = record { chats = []; last_chat_id = 0; messages = []; last_message_id = 0; states = [] }
