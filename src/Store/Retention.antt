-- ===== src/Store/Retention.antt =====
-- src/db/retention.py: unmonitored Gmail senders lose their old messages, and then their rows.
pub mod Laws
use whatsapp_radar.Base.{
  ℕ, ◌+◌, String, Bool, true, false, not, ◌&&◌, Option, none, some, List, map, ◌==◌, eqb, any,
  select, count_where, if◌then◌else◌,
}
use whatsapp_radar.Base.TextOrder.{leb_text}
use whatsapp_radar.Store.Rows.{Chat, StoredMessage, ReviewState, Db}

pub record PruneOutcome : Type 0 where
  pub messages_pruned : ℕ
  pub senders_removed : ℕ

-- `source = 'gmail' AND status != 'monitored'`
abbrev pub is_prunable : Chat → Bool
is_prunable c = c.source == "gmail" && not (c.status == "monitored")

-- `message_timestamp < cutoff AND chat_id IN (SELECT id FROM chats WHERE …)`
abbrev pub is_stale : List Chat → String → StoredMessage → Bool
is_stale chats cutoff m =
    not (leb_text cutoff m.message_timestamp)
    && any (λ c. is_prunable c && eqb c.id m.chat_id) chats

-- `last_processed_message_id IN (SELECT id FROM messages WHERE …)`
abbrev pub points_to_stale : Db → String → ReviewState → Bool
points_to_stale db cutoff s =
    any (λ m. is_stale db.chats cutoff m && eqb m.id s.last_processed_message_id) db.messages

-- `source = 'gmail' AND status = 'discovered' AND id NOT IN (SELECT DISTINCT chat_id FROM messages)`
abbrev pub is_empty_sender : List StoredMessage → Chat → Bool
is_empty_sender messages c =
    c.source == "gmail" && c.status == "discovered" && not (any (λ m. eqb m.chat_id c.id) messages)

-- `ON DELETE SET NULL`: a chat whose parent is removed stands alone again.
abbrev pub free_orphan : List Chat → Chat → Chat
free_orphan removed c = elim c.parent_chat_id [
  | none ↦ c
  | some p ↦ if any (λ r. eqb r.id p) removed then record c { parent_chat_id = none } else c
]

-- `ON DELETE CASCADE`: the cursor of a removed chat goes with its row; no message of it is left.
abbrev pub is_state_of_any : List Chat → ReviewState → Bool
is_state_of_any removed s = any (λ r. eqb r.id s.chat_id) removed

-- The three `DELETE` statements and the counts of the last two.
abbrev pub prune_rows : String → Db → Db × PruneOutcome
prune_rows cutoff db =
    let states = select (λ s. not (points_to_stale db cutoff s)) db.states in
    let messages = select (λ m. not (is_stale db.chats cutoff m)) db.messages in
    let removed = select (is_empty_sender messages) db.chats in
    let kept = select (λ c. not (is_empty_sender messages c)) db.chats in
    (
      record db {
        chats = map (free_orphan removed) kept;
        messages = messages;
        states = select (λ s. not (is_state_of_any removed s)) states;
      },
      record {
        messages_pruned = count_where (is_stale db.chats cutoff) db.messages;
        senders_removed = count_where (is_empty_sender messages) db.chats;
      },
    )

-- `cutoff` is the moment `retention_days` before the caller's clock; a `retention_days` below 1
-- raises `ValueError`, the `none` here.
unfoldable pub prune_gmail_unmonitored :
    (retention_days : ℕ) → String → Db → Option (Db × PruneOutcome)
prune_gmail_unmonitored retention_days cutoff db =
    if eqb retention_days 0 then none else some (prune_rows cutoff db)
