-- ===== src/Review.antt =====
-- src/analysis/review.py and the hold-back of src/analysis/transcription.py: which part of a delta is
-- analysed, and how far the cursors move once its analysis is stored.
pub mod Cursors
use whatsapp_radar.Base.{
  ℕ, String, Bool, true, false, not, ◌&&◌, ◌||◌, Option, none, some, List, [], ◌∷◌, eqb, ltb,
  is_text, select, if◌then◌else◌,
}
use whatsapp_radar.Base.Eq.{row_id_key}
use whatsapp_radar.Base.Groups.{Groups, append_to}
use whatsapp_radar.Store.Rows.{StoredMessage, RollingContext, Db}
use whatsapp_radar.Store.Messages.{advance_cursor, last_by_id}

-- `m.transcription_status in ('pending', 'failed') and m.media_path`
abbrev pub awaits_transcript : StoredMessage → Bool
awaits_transcript m =
    (is_text "pending" m.transcription_status || is_text "failed" m.transcription_status)
    && elim m.media_path [
      | none ↦ false
      | some path ↦ if is_text "" (some path) then false else true
    ]

abbrev pub min_option : ℕ → Option ℕ → Option ℕ
min_option i none = some i
min_option i (some j) = some (if ltb j i then j else i)

-- `min((m.id for m in messages if …), default=None)`
unfoldable pub barrier : List StoredMessage → Option ℕ
barrier [] = none
barrier (m ∷ ms) =
    let rest = barrier ms in if awaits_transcript m then min_option m.id rest else rest

-- `m.id < barrier`, and every message where there is no barrier.
abbrev pub is_before : Option ℕ → StoredMessage → Bool
is_before none m = true
is_before (some b) m = ltb m.id b

unfoldable pub hold_back_untranscribed : List StoredMessage → List StoredMessage
unfolding barrier
hold_back_untranscribed messages = select (is_before (barrier messages)) messages

unfoldable pub hold_back_if_transcribing : List StoredMessage → Bool → List StoredMessage
unfolding hold_back_untranscribed
hold_back_if_transcribing delta true = hold_back_untranscribed delta
hold_back_if_transcribing delta false = delta

-- The first loop of `advance_family_cursors`: the delta by origin chat.
unfoldable pub by_chat : Groups ℕ StoredMessage → List StoredMessage → Groups ℕ StoredMessage
unfolding append_to
by_chat g [] = g
by_chat g (m ∷ ms) = by_chat (append_to m.chat_id m g) ms

-- Only the head carries the rolling summary.
abbrev pub rolling_for : ℕ → Option String → ℕ → StoredMessage → Option RollingContext
rolling_for head summary chat_id last =
    if eqb chat_id head
    then some (record { last_summary = summary; last_message_id = last.source_message_id })
    else none

-- The second loop. A list in the dictionary is never empty.
unfoldable pub advance_groups : String → ℕ → Option String → Groups ℕ StoredMessage → Db → Db
unfolding advance_cursor last_by_id
advance_groups now head summary [] db = db
advance_groups now head summary ((chat_id, []) ∷ g) db = advance_groups now head summary g db
advance_groups now head summary ((chat_id, m ∷ ms) ∷ g) db =
    let last = last_by_id m ms in
    advance_groups now head summary g (
      advance_cursor now chat_id last.id last.message_timestamp
        (rolling_for head summary chat_id last) db)

unfoldable pub advance_family_cursors : String → ℕ → List StoredMessage → Option String → Db → Db
unfolding by_chat advance_groups
advance_family_cursors now head delta summary db =
    advance_groups now head summary (by_chat [] delta) db
