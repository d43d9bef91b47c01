-- ===== src/Pipeline/Closed.antt =====
-- A scan opens one row of `review_runs` and closes it on every path: src/analysis/pipeline.py.
use whatsapp_radar.Base.{
  ◌+◌, not, ◌||◌, any, length, if◌then◌else◌, suc, ◌≤◌, String, ◌≡◌, Bool, false, some, [], ◌∷◌,
  ◌++◌, eqb, All,
}
use whatsapp_radar.Pipeline.State.{Mode, live, dry_run, process, Run, RunFunnel, Radar, ScanOutcome}
use whatsapp_radar.Pipeline.Services.{Services, Progress}
use whatsapp_radar.Pipeline.Loop.{Setup}

-- Whether a scan stops at its sync: it is live, and no source succeeds.
abbrev pub goes_offline : Setup → Mode → Radar → Bool
goes_offline su live before = not (any (λ x. x.succeeded) (su.sync before.db).results)
goes_offline su dry_run before = false
goes_offline su process before = false

-- The status that a run ends with, by whether it went offline and by its outcome.
abbrev pub ending_status : Bool → ScanOutcome → String
ending_status offline out =
    if offline || out.aborted
    then "failed"
    else if eqb (length out.errors + length out.source_errors) 0
    then "completed"
    else "completed_with_errors"

-- The runs are those of before and one more row, which is this run's and is closed at the time `now`,
-- with the status and the counts of the outcome.
pub record IsClosed (now : String) (offline : Bool) (before : Radar) (p : Progress) : Type 0 where
  pub row : Run
  pub one_more : p.radar.runs ≡ before.runs ++ row ∷ []
  pub own_id : row.id ≡ p.out.run_id
  pub completed : row.completed_at ≡ some now
  pub ended : row.status ≡ ending_status offline p.out
  pub funnel : RunFunnel
  pub closed : row.funnel ≡ some funnel
  pub sources : funnel.source_funnels ≡ p.out.source_funnels
  pub notified : funnel.notification_status ≡ p.out.notification_status

module _ (before : Radar) (ids : All (λ x. x.id ≤ before.last_run_id) before.runs) where
  -- The run's row stands last, and is open.
  abbrev IsOpen : Progress → Type 0
  IsOpen p =
      (row : Run) × (p.radar.runs ≡ before.runs ++ row ∷ [])
      × (row.id ≡ suc before.last_run_id)
      × (p.out.run_id ≡ suc before.last_run_id)
      × (p.out.aborted ≡ false)
