-- ===== src/Transcription/Complete.antt =====
-- src/analysis/transcription.py: what a whole transcription phase leaves.
use whatsapp_radar.Base.{String, ◌≡◌, Bool, List, length, All}
use whatsapp_radar.Store.Rows.{StoredMessage}
use whatsapp_radar.Transcription.{Windows, Speech, Phase}
use whatsapp_radar.Transcription.Loop.{Result}
use whatsapp_radar.Transcription.Skipped.{IsSkipped}

module _ (unlinks : String → Bool) (speech : Speech) (v : Windows) where
  -- What a phase leaves: the stale notes are skipped and counted so, and the waiting notes that it
  -- came to have marks.
  pub record IsComplete (stale waiting : List StoredMessage) (ready q : Phase) : Type 0 where
    pub no_done : ready.done_count ≡ 0
    pub no_failed : ready.failed_count ≡ 0
    pub skipped : ready.skipped_count ≡ length stale
    pub stale_skipped : All (IsSkipped unlinks speech v q) stale
    pub told : Result unlinks speech v waiting ready q
