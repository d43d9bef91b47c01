-- ===== src/Tests/Voices.antt =====
-- A transcription phase over two waiting notes and a stale one.
use whatsapp_radar.Base.{String, ◌≡◌, refl, true, false, some, [], ◌∷◌}
use whatsapp_radar.Base.Sort.{sort}
use whatsapp_radar.Base.TextOrder.{leb_text}
use whatsapp_radar.Store.Messages.{leb_sent}
use whatsapp_radar.Store.Rows.{StoredMessage, Db}
use whatsapp_radar.Transcription.{
  Windows, Speech, Phase, transcript, sweep_and_skip_stale, stale_voice_notes,
  pending_transcriptions, run_transcription_phase, transcribe_notes, transcribe_note, skip_stale,
  mark_transcription,
}
use whatsapp_radar.Tests.Samples.{db, message}

abbrev voice : String → StoredMessage → StoredMessage
voice path m = record m { message_type = "voice"; media_path = some path }

abbrev voices : Db
voices = record db {
  messages =
      voice "1.ogg" (message 1 1 "2023-01-01" "stale" (some "pending"))
      ∷ voice "2.ogg" (message 2 1 "2024-02-02" "[voice note]" (some "pending"))
      ∷ voice "3.ogg" (message 3 1 "2024-02-03" "[voice note]" (some "failed"))
      ∷ [];
}

abbrev windows : Windows
windows = record {
  pending_cutoff = "2024-01-01";
  failed_cutoff = "2024-01-01";
  retain_cutoff = "2024-01-01";
  retains = false;
}

abbrev speech : Speech
speech = record {
  language = "auto";
  lower = λ s. s;
  strip = λ s. s;
  detect = λ s. some "en";
  hear = λ m hint. transcript "meeting";
}

abbrev finished : Phase
finished =
    run_transcription_phase (λ path. true) speech windows true voices
      ("1.ogg" ∷ "2.ogg" ∷ "3.ogg" ∷ [])

-- The stale note is skipped, the two others are transcribed.
finished_test : (finished.skipped_count ≡ 1) × (finished.done_count ≡ 2) × (finished.files ≡ [])
unfolding run_transcription_phase transcribe_notes transcribe_note sweep_and_skip_stale skip_stale
    stale_voice_notes pending_transcriptions mark_transcription sort leb_sent leb_text
finished_test = (refl, refl, refl)
