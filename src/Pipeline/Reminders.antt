-- ===== src/Pipeline/Reminders.antt =====
-- The reminders of src/analysis/reminders.py: who is eligible, and one event for one evidence.
use whatsapp_radar.Base.{
  ℕ, String, Bool, true, false, not, ◌&&◌, Option, none, some, List, [], ◌∷◌, ◌==◌, eqb, is_none,
  is_text, any, find, if◌then◌else◌,
}
use whatsapp_radar.Contract.{AnalysisResult}
use whatsapp_radar.Store.Rows.{Chat}
use whatsapp_radar.Pipeline.State.{Mode, AnalysisItem, Radar, set_calendar_event_id}
use whatsapp_radar.Pipeline.Services.{Services, is_dry}

-- `frozenset(a) == frozenset(b)`
abbrev pub covers : List String → List String → Bool
covers a [] = true
covers a (x ∷ xs) = any (λ y. y == x) a && covers a xs

abbrev pub same_set : List String → List String → Bool
same_set a b = covers a b && covers b a

abbrev pub is_reminder_of : ℕ → List String → AnalysisItem → Bool
is_reminder_of chat_id evidence i =
    eqb i.chat_id chat_id
    && not (is_none i.calendar_event_id)
    && same_set i.result.evidence_message_ids evidence

abbrev pub event_of : Option AnalysisItem → Option String
event_of none = none
event_of (some i) = i.calendar_event_id

-- `store.find_calendar_event_for_evidence`
unfoldable pub find_calendar_event : Radar → ℕ → List String → Option String
find_calendar_event r chat_id [] = none
find_calendar_event r chat_id (e ∷ es) = event_of (find (is_reminder_of chat_id (e ∷ es)) r.items)

abbrev pub nonempty : Option String → Bool
nonempty none = false
nonempty (some s) = if s == "" then false else true

-- `is_eligible`
abbrev pub is_eligible : AnalysisResult → Bool
is_eligible r =
    r.action_required
    && is_text "routine" r.prep_complexity
    && nonempty r.child
    && nonempty r.deadline_date

-- `create_reminder_event`: a prior event of the same evidence, or the calendar's answer.
abbrev pub record_event : ℕ → Option String → Option String → Radar → Radar
record_event item_id (some prior) created r = set_calendar_event_id item_id prior r
record_event item_id none none r = r
record_event item_id none (some created) r =
    if created == "" then r else set_calendar_event_id item_id created r

module _ (sv : Services) where
  -- `_create_reminder_if_eligible`
  unfoldable pub create_reminder_if_eligible : Mode → Chat → ℕ → AnalysisResult → Radar → Radar
  unfolding find_calendar_event
  create_reminder_if_eligible mode chat item_id result r =
      if not (is_dry mode)
        && sv.calendar_client
        && not (sv.reminder_calendar_id == "")
        && is_eligible result
      then record_event item_id (find_calendar_event r chat.id result.evidence_message_ids)
          (sv.insert_event chat result) r
      else r
