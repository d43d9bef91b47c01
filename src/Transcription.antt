-- ===== src/Transcription.antt =====
-- src/analysis/transcription.py: the phase that turns voice notes into text, with what it reads and
-- writes of src/db/messages.py.
pub mod Told
pub mod Loop
pub mod Skipped
pub mod Complete
use whatsapp_radar.Base.{
  ℕ, suc, String, Bool, true, false, not, ◌&&◌, ◌||◌, Option, none, some, List, [], ◌∷◌, ◌++◌, ◌==◌,
  eqb, is_none, is_text, any, find, select, update_where, if◌then◌else◌, zero, leb,
}
use whatsapp_radar.Base.Text.{join, take_text}
use whatsapp_radar.Base.Json.{Value, Fields, field, end, str, null}
use whatsapp_radar.Base.Sort.{sort}
use whatsapp_radar.Base.TextOrder.{leb_text}
use whatsapp_radar.Store.Rows.{StoredMessage, Db}
use whatsapp_radar.Store.Messages.{leb_sent}

-- The cutoffs of the windows, as the texts that the queries compare with.
pub record Windows : Type 0 where
  pub pending_cutoff : String
  pub failed_cutoff : String
  pub retain_cutoff : String
  pub retains : Bool

-- `data["placeholder_text"] = …`
unfoldable pub put_field : String → Value → Fields → Fields
put_field k v end = field k v end
put_field k v (field j w fs) = if j == k then field k v fs else field j w (put_field k v fs)

abbrev pub text_value : Option String → Value
text_value none = null
text_value (some s) = str s

abbrev pub is_voice : StoredMessage → Bool
is_voice m = m.message_type == "voice"

abbrev pub is_older : String → StoredMessage → Bool
is_older cutoff m = not (leb_text cutoff m.message_timestamp)

abbrev pub is_waiting : Windows → StoredMessage → Bool
is_waiting v m =
    is_voice m
    && (not (is_none m.media_path)
        && ((is_text "pending" m.transcription_status && not (is_older v.pending_cutoff m))
            || (is_text "failed" m.transcription_status && not (is_older v.failed_cutoff m))))

unfoldable pub pending_transcriptions : Windows → Db → List StoredMessage
pending_transcriptions v db = sort leb_sent (select (is_waiting v) db.messages)

unfoldable pub stale_voice_notes : Windows → Db → List StoredMessage
stale_voice_notes v db =
    select
      (λ m.
        is_voice m
        && ((is_text "pending" m.transcription_status && is_older v.pending_cutoff m)
            || (is_text "failed" m.transcription_status && is_older v.failed_cutoff m)))
      db.messages

unfoldable pub expired_retained_audio : Windows → Db → List StoredMessage
expired_retained_audio v db =
    select
      (λ m.
        is_text "done" m.transcription_status
        && (not (is_none m.media_path) && is_older v.retain_cutoff m))
      db.messages

abbrev pub has_row_id : ℕ → StoredMessage → Bool
has_row_id i m = eqb m.id i

abbrev pub on_message : ℕ → (StoredMessage → StoredMessage) → Db → Db
on_message i f db = record db { messages = update_where (has_row_id i) f db.messages }

unfoldable pub clear_media_path : ℕ → Db → Db
clear_media_path i db = on_message i (λ m. record m { media_path = none }) db

-- The three ways of `mark_transcription`.
pub data Mark : Type 0 where
  done : (transcript : String) (keep_media : Bool) → Mark
  skipped_old : Mark
  failed : Mark

abbrev pub marked : Mark → StoredMessage → StoredMessage
marked (done transcript keep_media) m = record m {
  text = some transcript;
  transcription_status = some "done";
  media_path = if keep_media then m.media_path else none;
  summary = none;
  raw = put_field "placeholder_text" (text_value m.text) m.raw;
}
marked skipped_old m = record m { transcription_status = some "skipped_old"; media_path = none }
marked failed m = record m { transcription_status = some "failed" }

unfoldable pub mark_transcription : ℕ → Mark → Db → Db
mark_transcription i k db = on_message i (marked k) db

-- What the transcriber does with a note: its text, an error of the file, or an outage of the backend.
pub data Heard : Type 0 where
  transcript : String → Heard
  broken : Heard
  backend_down : Heard

-- The store, the paths of the buffer at which something exists, `TranscriptionOutcome`, and the cache of
-- the chats' languages.
pub record Phase : Type 0 where
  pub db : Db
  pub files : List String
  pub done_count : ℕ
  pub failed_count : ℕ
  pub skipped_count : ℕ
  pub swept_count : ℕ
  pub is_down : Bool
  pub languages : List (ℕ × Option String)

abbrev pub has_file : Option String → List String → Bool
has_file none files = false
has_file (some path) files = any (λ f. f == path) files

abbrev pub new_phase : Db → List String → Phase
new_phase db files = record {
  db = db;
  files = files;
  done_count = 0;
  failed_count = 0;
  skipped_count = 0;
  swept_count = 0;
  is_down = false;
  languages = [];
}

-- `_delete_audio`, where the disk lets it: `unlinks` tells for which files it does.
abbrev pub delete_audio : (String → Bool) → Option String → List String → List String
delete_audio unlinks none files = files
delete_audio unlinks (some path) files =
    if path == "" then files else select (λ f. not (f == path && unlinks f)) files

-- `cfg.language`, what the phase calls of Python's library on texts with `langdetect.detect`, where none is
-- its exception, and the transcriber.
pub record Speech : Type 0 where
  pub language : String
  pub lower : String → String
  pub strip : String → String
  pub detect : String → Option String
  pub hear : StoredMessage → Option String → Heard

unfoldable take {ℓ} : {A : Type ℓ} → ℕ → List A → List A
take zero xs = []
take (suc n) [] = []
take (suc n) (x ∷ xs) = x ∷ take n xs

abbrev pub is_later : StoredMessage → StoredMessage → Bool
is_later a b = leb b.id a.id

-- `text IS NOT NULL AND substr(text, 1, 1) != '['`
abbrev pub is_typed : ℕ → StoredMessage → Bool
is_typed chat_id m =
    eqb m.chat_id chat_id && elim m.text [ none ↦ false | some s ↦ not (take_text 1 s == "[") ]

-- The texts of the rows that are not empty.
unfoldable pub typed_texts : List StoredMessage → List String
typed_texts [] = []
typed_texts (m ∷ ms) = elim m.text [
  | none ↦ typed_texts ms
  | some s ↦ if s == "" then typed_texts ms else s ∷ typed_texts ms
]

-- A sample that its first nineteen characters make up is shorter than `_MIN_DETECT_CHARS`.
unfoldable pub detect_chat_language : Speech → Db → ℕ → Option String
unfolding take
detect_chat_language speech db chat_id =
    let rows = take 40 (sort is_later (select (is_typed chat_id) db.messages)) in
    let sample = speech.strip (join " " (typed_texts rows)) in
    if take_text 19 sample == sample then none else speech.detect sample

-- The hint, with the cache after it.
unfoldable pub resolve_language :
    Speech → Db → ℕ → List (ℕ × Option String) → Option String × List (ℕ × Option String)
resolve_language speech db chat_id cache =
    if not (speech.language == "") && not (speech.lower speech.language == "auto")
    then (some speech.language, cache)
    else elim (find (λ c. eqb c.0 chat_id) cache) [
      | some c ↦ (c.1, cache)
      | none ↦
          let found = detect_chat_language speech db chat_id in (found, (chat_id, found) ∷ cache)
    ]

module _ (unlinks : String → Bool) (speech : Speech) (v : Windows) where
  unfoldable pub sweep_expired : List StoredMessage → Phase → Phase
  sweep_expired [] p = p
  sweep_expired (m ∷ ms) p = sweep_expired ms (record p {
    db = clear_media_path m.id p.db;
    files = delete_audio unlinks m.media_path p.files;
    swept_count = suc p.swept_count;
  })

  unfoldable pub skip_stale : List StoredMessage → Phase → Phase
  skip_stale [] p = p
  skip_stale (m ∷ ms) p = skip_stale ms (record p {
    db = mark_transcription m.id skipped_old p.db;
    files = delete_audio unlinks m.media_path p.files;
    skipped_count = suc p.skipped_count;
  })

  abbrev pub sweep_retained : Phase → Phase
  sweep_retained p = if v.retains then sweep_expired (expired_retained_audio v p.db) p else p

  unfoldable pub sweep_and_skip_stale : Phase → Phase
  sweep_and_skip_stale p =
      let swept = sweep_retained p in skip_stale (stale_voice_notes v swept.db) swept

  -- The end of the loop body, by what the transcriber did; an outage leaves the note as it is.
  abbrev pub settle_note : StoredMessage → Heard → Phase → Phase
  settle_note m backend_down p = record p { is_down = true }
  settle_note m broken p = record p {
    db = mark_transcription m.id failed p.db;
    failed_count = suc p.failed_count;
  }
  settle_note m (transcript text) p = record p {
    db = mark_transcription m.id (done text v.retains) p.db;
    files = if v.retains then p.files else delete_audio unlinks m.media_path p.files;
    done_count = suc p.done_count;
  }

  unfoldable pub transcribe_note : StoredMessage → Phase → Phase
  transcribe_note m p =
      if has_file m.media_path p.files
      then (let hint = resolve_language speech p.db m.chat_id p.languages in
          settle_note m (speech.hear m hint.0) (record p { languages = hint.1 }))
      else record p {
        db = mark_transcription m.id skipped_old p.db;
        skipped_count = suc p.skipped_count;
      }

  -- The loop, with its `break`.
  unfoldable pub transcribe_notes : List StoredMessage → Phase → Phase
  transcribe_notes [] p = p
  transcribe_notes (m ∷ ms) p =
      let next = transcribe_note m p in
      let rest = transcribe_notes ms next in if next.is_down then next else rest

  unfoldable pub run_transcription_phase : Bool → Db → List String → Phase
  run_transcription_phase enabled db files =
      let ready = sweep_and_skip_stale (new_phase db files) in
      if enabled
      then transcribe_notes (pending_transcriptions v ready.db) ready
      else new_phase db files
