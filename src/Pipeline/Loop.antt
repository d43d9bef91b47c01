-- ===== src/Pipeline/Loop.antt =====
-- src/analysis/pipeline.py: the configuration of a scan, the delta of a chat, and the loop over the
-- monitored chats.
use whatsapp_radar.Base.{
  ℕ, suc, ◌+◌, String, Bool, true, false, not, ◌&&◌, Option, none, some, List, [], ◌∷◌, ◌==◌, any,
  select, if◌then◌else◌,
}
use whatsapp_radar.Store.Rows.{Chat, StoredMessage, Db}
use whatsapp_radar.Store.Chats.{get_chat}
use whatsapp_radar.Store.Messages.{family_delta_since_cursor, family_delta_replay}
use whatsapp_radar.Review.{hold_back_if_transcribing}
use whatsapp_radar.Pipeline.State.{Mode, live, dry_run, process, AnalysisItem, Radar}
use whatsapp_radar.Pipeline.Services.{Services, Progress, is_dry}
use whatsapp_radar.Pipeline.Analyze.{analyze_chat}
use whatsapp_radar.Pipeline.Services.{Services, Progress, is_dry}

-- One source's result of a sync.
pub record SourceResult : Type 0 where
  pub source : String
  pub succeeded : Bool
  pub error : Option String
  pub chats_seen : ℕ
  pub messages_added : ℕ

-- What `sync_sources` leaves: the tables, and a result for each source.
pub record Synced : Type 0 where
  pub db : Db
  pub results : List SourceResult
  pub source_errors : List (String × String)
  pub chats_seen : ℕ
  pub messages_added : ℕ

-- What `_run_tripwire` reports, and the new time of the nudge, where one was sent.
pub record Tripwire : Type 0 where
  pub scanned : ℕ
  pub hits : ℕ
  pub truncated : Bool
  pub nudge_status : String
  pub sent_at : Option String

-- The configuration and the phases around the analysis. `since` is the replay's cutoff; `send` is the
-- notifier's status for a digest; `run_tripwire` is its report.
pub record Setup : Type 0 where
  pub sources : List String
  pub transcription_enabled : Bool
  pub since : Option String
  pub days : Option ℕ
  pub sync : Db → Synced
  pub transcribe : Db → Db × ℕ
  pub run_tripwire : Radar → Tripwire
  pub send : List AnalysisItem → String

abbrev pub is_listed : String → List String → Bool
is_listed s = any (λ t. t == s)

-- The chat's source is known, and synced in this run.
abbrev pub from_synced : Db → List String → StoredMessage → Bool
from_synced db successful m = elim (get_chat db m.chat_id) [
  | none ↦ false
  | some c ↦ is_listed c.source successful
]

abbrev pub is_live : Mode → Bool
is_live live = true
is_live dry_run = false
is_live process = false

module _ (su : Setup) where
  -- `_chat_delta`
  unfoldable pub chat_delta : Mode → List String → Db → ℕ → List StoredMessage
  chat_delta mode successful db chat_id =
      let stored =
        if is_dry mode
        then family_delta_replay db chat_id su.since
        else family_delta_since_cursor db chat_id in
      let confirmed = if is_live mode then select (from_synced db successful) stored else stored in
      hold_back_if_transcribing confirmed (not (is_dry mode) && su.transcription_enabled)

  abbrev has_delta : Mode → List String → Db → Chat → Bool
  has_delta mode successful db c = elim (chat_delta mode successful db c.id) [
    | [] ↦ false
    | m ∷ ms ↦ true
  ]

  -- `_unanalysed_after_abort`, after the failed chat: the later chats that had work.
  unfoldable pub unanalysed : Mode → List String → Db → List Chat → List String × ℕ
  unfolding chat_delta
  unanalysed mode successful db [] = ([], 0)
  unanalysed mode successful db (c ∷ cs) =
      let (names, n) = unanalysed mode successful db cs in
      if has_delta mode successful db c then (c.display_name ∷ names, suc n) else (names, n)

-- How the loop over the chats ended: the progress, and the error and the unanalysed chats of an abort.
abbrev pub LoopEnd : Type 0
LoopEnd = Progress × Option (String × List String)

module _ (sv : Services) (su : Setup) where
  -- The return of `_analyze_chat`: go on, or stop with the names of the chats left over.
  abbrev pub after_chat :
      Mode
      → List String
      → (Progress → LoopEnd)
      → Chat
      → List Chat
      → Progress × Option String
      → LoopEnd
  after_chat mode successful next c cs (p, none) = next p
  after_chat mode successful next c cs (p, some e) =
      let (names, n) = unanalysed su mode successful p.radar.db cs in
      (
        record p { out = record p.out { chats_with_delta = p.out.chats_with_delta + n } },
        some (e, c.display_name ∷ names),
      )

  -- One round of the loop: a chat with no delta is passed over.
  abbrev pub with_delta :
      Mode
      → List String
      → (Progress → LoopEnd)
      → Chat
      → List Chat
      → Progress
      → List StoredMessage
      → LoopEnd
  with_delta mode successful next c cs p [] = next p
  with_delta mode successful next c cs p (m ∷ ms) = after_chat mode successful next c cs (
      analyze_chat sv mode c (m ∷ ms)
        (record p { out = record p.out { chats_with_delta = p.out.chats_with_delta + 1 } }))

  unfoldable pub review_chats : Mode → List String → List Chat → Progress → LoopEnd
  unfolding chat_delta unanalysed analyze_chat
  review_chats mode successful [] p = (p, none)
  review_chats mode successful (c ∷ cs) p =
      with_delta mode successful (review_chats mode successful cs) c cs p
        (chat_delta su mode successful p.radar.db c.id)
