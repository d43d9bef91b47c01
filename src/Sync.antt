-- ===== src/Sync.antt =====
-- src/db/sync.py and src/db/sync_log.py: the ingest of the connectors' chats and messages.
pub mod Counts
pub mod Kept
pub mod Logged
pub mod Keyed
pub mod Shown
pub mod Idle
use Prim.Native.String.{◌++◌ as joined}
use whatsapp_radar.Base.{
  ℕ, suc, ◌+◌, String, Bool, true, false, not, ◌&&◌, ◌||◌, Option, none, some, List, [], ◌∷◌, ◌++◌,
  map, ◌==◌, eqb, is_none, select, any, length, if◌then◌else◌,
}
use whatsapp_radar.Base.Text.{join, decimal}
use whatsapp_radar.Store.Rows.{ChatRecord, Chat, MessageRecord, StoredMessage, Db}
use whatsapp_radar.Store.Chats.{chat_id_for_source, get_chat, upsert_chat, count_chats}
use whatsapp_radar.Store.Messages.{insert_messages}
use whatsapp_radar.Store.Retention.{PruneOutcome, prune_gmail_unmonitored}

-- What a call of a connector gives: a value, or `ConnectorOffline` with its text.
pub data Reply {ℓ} (A : Type ℓ) : Type ℓ where
  offline : String → Reply A
  got : A → Reply A

-- `str(ConnectorOffline(…))`
abbrev pub offline_text : (name detail : String) → String
offline_text name detail =
    joined name (joined " offline — " (if detail == "" then "connector is offline" else detail))

-- A connector: the check that it is connected, the chats it lists, and the messages of a chat. `fetch`
-- is given the ids that are stored, which a connector without `fetch_messages_new` does not look at.
pub record Connector : Type 0 where
  pub prepare : Option String
  pub list_chats : Reply (List ChatRecord)
  pub fetch : String → List String → Reply (List MessageRecord)

pub record ConnectorBinding : Type 0 where
  pub source : String
  pub connector : Connector

pub record IngestDelta : Type 0 where
  pub chats_seen : ℕ
  pub chats_added : ℕ
  pub chats_updated : ℕ
  pub messages_added : ℕ

abbrev pub no_delta : IngestDelta
no_delta = record { chats_seen = 0; chats_added = 0; chats_updated = 0; messages_added = 0 }

-- `message_source_ids`
unfoldable pub message_source_ids : Db → ℕ → List String
message_source_ids db chat_id =
    map (λ m. m.source_message_id) (select (λ m. eqb m.chat_id chat_id) db.messages)

-- `clock` is the time that `_now()` reads when a chat is written, by the chat's id at its source.
module _ (clock : String → String) where
  -- The row of the store and the record differ in name or type.
  abbrev pub differs : ChatRecord → Option Chat → Bool
  differs chat none = false
  differs chat (some row) =
      not (row.display_name == chat.display_name) || not (row.chat_type == chat.chat_type)

  -- The chat's part of the loop body, by the id that is stored: the store, the id, and the delta.
  unfoldable pub settle_chat : ChatRecord → Option ℕ → Db → IngestDelta → Db × ℕ × IngestDelta
  settle_chat chat none db delta =
      let (filled, chat_id) = upsert_chat (clock chat.source_chat_id) chat db in
      (filled, chat_id, record delta { chats_added = suc delta.chats_added })
  settle_chat chat (some chat_id) db delta =
      if differs chat (get_chat db chat_id)
      then (
        (upsert_chat (clock chat.source_chat_id) chat db).0,
        chat_id,
        record delta { chats_updated = suc delta.chats_updated },
      )
      else (db, chat_id, delta)

  -- The messages' part.
  abbrev pub take_in : ℕ → List MessageRecord → Db → IngestDelta → Db × IngestDelta
  take_in chat_id records db delta =
      let (filled, added) = insert_messages chat_id records db in
      (filled, record delta { messages_added = delta.messages_added + added })

  abbrev pub seen : IngestDelta → IngestDelta
  seen delta = record delta { chats_seen = suc delta.chats_seen }

  -- What was written before a connector goes offline stays in the store.
  abbrev pub and_then :
      Db × Reply IngestDelta → (Db → IngestDelta → Db × Reply IngestDelta) → Db × Reply IngestDelta
  and_then (db, offline text) f = (db, offline text)
  and_then (db, got delta) f = f db delta

  pub and_then-keeps {ℓ} :
      (P : Db × Reply IngestDelta → Type ℓ) (s : Db × Reply IngestDelta)
      (f : Db → IngestDelta → Db × Reply IngestDelta)
      → ((db : Db) (delta : IngestDelta) → P (db, got delta) → P (f db delta))
      → P s
      → P (and_then s f)
  and_then-keeps P (db, offline text) f g h = h
  and_then-keeps P (db, got delta) f g h = g db delta h

  abbrev pub fetched : ℕ → Db → IngestDelta → Reply (List MessageRecord) → Db × Reply IngestDelta
  fetched chat_id db delta (offline text) = (db, offline text)
  fetched chat_id db delta (got records) =
      let (filled, noted) = take_in chat_id records db delta in (filled, got noted)

  -- The body of the loop.
  unfoldable pub ingest_chat : Connector → ChatRecord → Db → IngestDelta → Db × Reply IngestDelta
  ingest_chat k chat db delta =
      let (settled, chat_id, noted) =
        settle_chat chat (chat_id_for_source db chat.source_chat_id chat.source) db delta in
      fetched chat_id settled (seen noted)
        (k.fetch chat.source_chat_id (message_source_ids settled chat_id))

  unfoldable pub ingest_each :
      Connector → List ChatRecord → Db → IngestDelta → Db × Reply IngestDelta
  ingest_each k [] db delta = (db, got delta)
  ingest_each k (chat ∷ chats) db delta =
      and_then (ingest_chat k chat db delta) (λ filled noted. ingest_each k chats filled noted)

  -- `replace(chat, source=source)`
  abbrev pub tagged : String → ChatRecord → ChatRecord
  tagged source chat = if chat.source == source then chat else record chat { source = source }

  unfoldable pub ingest_chats : Connector → String → Db → Db × Reply IngestDelta
  ingest_chats k source db = elim k.list_chats [
    | offline text ↦ (db, offline text)
    | got chats ↦ ingest_each k (map (tagged source) chats) db no_delta
  ]

-- A row of `sync_log`.
pub record SyncRow : Type 0 where
  pub ran_at : String
  pub source : String
  pub connector_source : String
  pub status : String
  pub detail : String
  pub chats_added : ℕ
  pub chats_updated : ℕ
  pub messages_added : ℕ
  pub total_chats : ℕ
  pub total_messages : ℕ

-- The store, and the log in the order of its ids.
pub record Ledger : Type 0 where
  pub db : Db
  pub sync_log : List SyncRow

pub record SourceSyncOutcome : Type 0 where
  pub source : String
  pub delta : IngestDelta
  pub error : Option String

abbrev pub is_ok : SourceSyncOutcome → Bool
is_ok r = is_none r.error

-- `result.error or ""`
abbrev pub error_text : SourceSyncOutcome → String
error_text r = elim r.error [ none ↦ "" | some text ↦ text ]

-- What one source's ingest makes of its result: an offline source keeps the zeros it began with.
abbrev pub result_of : String → Reply IngestDelta → SourceSyncOutcome
result_of source (offline text) = record { source = source; delta = no_delta; error = some text }
result_of source (got delta) = record { source = source; delta = delta; error = none }

-- `record_sync`
unfoldable pub record_sync : String → String → String → SourceSyncOutcome → Ledger → Ledger
record_sync now operation detail result l = record l {
  sync_log =
      l.sync_log
      ++ record {
        ran_at = now;
        source = operation;
        connector_source = result.source;
        status = if is_ok result then "success" else "failed";
        detail = detail;
        chats_added = result.delta.chats_added;
        chats_updated = result.delta.chats_updated;
        messages_added = result.delta.messages_added;
        total_chats = count_chats l.db;
        total_messages = length l.db.messages;
      }
        ∷ [];
}

-- The text of a prune, when it removed something.
abbrev pub prune_detail : String → PruneOutcome → String
prune_detail detail p =
    if eqb p.messages_pruned 0 && eqb p.senders_removed 0
    then detail
    else join "" (
        "retention pruned "
        ∷ decimal p.messages_pruned
        ∷ " msg / "
        ∷ decimal p.senders_removed
        ∷ " sender(s)"
        ∷ [])

-- The prune that follows: the store, and the detail of the log row. With days of retention, the prune
-- itself does not refuse.
abbrev pub prune_after : ℕ → String → SourceSyncOutcome → Db → Db × String
prune_after retention_days cutoff result db =
    if result.source == "gmail" && (is_ok result && not (eqb retention_days 0))
    then elim (prune_gmail_unmonitored retention_days cutoff db) [
      | none ↦ (db, error_text result)
      | some (pruned, outcome) ↦ (pruned, prune_detail (error_text result) outcome)
    ]
    else (db, error_text result)

module _ (clock : String → String) (now cutoff : String) (operation : String)
    (retention_days : ℕ) where
  -- `prepare_source` and `ingest_chats`, under the `try`.
  unfoldable pub ingest_source : ConnectorBinding → Db → Db × Reply IngestDelta
  ingest_source b db = elim b.connector.prepare [
    | some text ↦ (db, offline text)
    | none ↦ ingest_chats clock b.connector b.source db
  ]

  -- The body of the loop over the sources.
  unfoldable pub sync_source : ConnectorBinding → Ledger → Ledger × SourceSyncOutcome
  sync_source b l =
      let (ingested, reply) = ingest_source b l.db in
      let result = result_of b.source reply in
      let (pruned, detail) = prune_after retention_days cutoff result ingested in
      (record_sync now operation detail result (record l { db = pruned }), result)

  unfoldable pub sync_sources : List ConnectorBinding → Ledger → Ledger × List SourceSyncOutcome
  sync_sources [] l = (l, [])
  sync_sources (b ∷ bs) l =
      let (logged, result) = sync_source b l in
      let (after, results) = sync_sources bs logged in (after, result ∷ results)

-- `MultiSourceSyncOutcome.source_errors`
unfoldable pub source_errors : List SourceSyncOutcome → List (String × String)
source_errors [] = []
source_errors (r ∷ rs) =
    let rest = source_errors rs in
    elim r.error [ none ↦ rest | some text ↦ (r.source, text) ∷ rest ]

-- `MultiSourceSyncOutcome.delta`
unfoldable pub total_delta : List SourceSyncOutcome → IngestDelta
total_delta [] = no_delta
total_delta (r ∷ rs) =
    let rest = total_delta rs in
    record {
      chats_seen = r.delta.chats_seen + rest.chats_seen;
      chats_added = r.delta.chats_added + rest.chats_added;
      chats_updated = r.delta.chats_updated + rest.chats_updated;
      messages_added = r.delta.messages_added + rest.messages_added;
    }

pub record ResyncOutcome : Type 0 where
  pub chats_added : ℕ
  pub chats_updated : ℕ
  pub messages_added : ℕ
  pub source_errors : List (String × String)

-- `resync` on bindings: offline when no source succeeded, in which case all that the sources wrote
-- and logged stays.
unfoldable pub resync :
    (clock : String → String) (now cutoff operation : String) (retention_days : ℕ)
    → List ConnectorBinding
    → Ledger
    → Ledger × Reply ResyncOutcome
resync clock now cutoff operation retention_days bs l =
    let (after, results) = sync_sources clock now cutoff operation retention_days bs l in
    let delta = total_delta results in
    (
      after,
      if any is_ok results
          then got (record {
            chats_added = delta.chats_added;
            chats_updated = delta.chats_updated;
            messages_added = delta.messages_added;
            source_errors = source_errors results;
          })
          else offline (
              offline_text "all_sources"
                (join "; " (map (λ e. joined e.0 (joined ": " e.1)) (source_errors results)))),
    )
