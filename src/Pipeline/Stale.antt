-- ===== src/Pipeline/Stale.antt =====
-- src/db/runs.py: `abandon_run` and `reconcile_stale_runs`, which close the runs whose process has died.
pub mod Settled
use whatsapp_radar.Base.{
  ℕ, ◌+◌, ◌-◌, ◌/◌, String, Bool, true, false, ◌&&◌, Option, none, some, List, [], ◌∷◌, ◌==◌, eqb,
  leb, ltb, any, select, update_where, if◌then◌else◌,
}
use whatsapp_radar.Base.Sort.{sort}
use whatsapp_radar.Base.Text.{join, decimal}
use whatsapp_radar.Pipeline.State.{Run, Radar}

abbrev pub family_kinds : List String
family_kinds = "traffic-check" ∷ "calendar-scan" ∷ []

-- Thirty minutes, in microseconds.
abbrev pub stale_running_after : ℕ
stale_running_after = 1800000000

abbrev pub is_running : Run → Bool
is_running x = x.status == "running"

abbrev pub abandoned : String → Run → Run
abandoned error x = record x { status = "abandoned"; error = some error }

-- `abandon_run`, and whether it changed a row.
unfoldable pub abandon_run : ℕ → String → Radar → Radar × Bool
abandon_run run_id error r = (
  record r { runs = update_where (λ x. eqb x.id run_id && is_running x) (abandoned error) r.runs },
  any (λ x. eqb x.id run_id && is_running x) r.runs,
)

-- `STALE_RUNNING_AFTER` has the run's kind.
abbrev pub is_bounded : Run → Bool
is_bounded x = any (λ k. k == x.kind) family_kinds

-- The instant that `started_at` is read to be, a naive one as UTC, and `none` where it does not parse.
module _ (read : String → Option ℕ) (now : ℕ) where
  abbrev pub too_old : Option ℕ → Bool
  too_old none = false
  too_old (some started) = leb (started + stale_running_after) now

  abbrev pub minutes_since : Option ℕ → ℕ
  minutes_since none = 0
  minutes_since (some started) = (now - started) / 60000000

  abbrev pub stale_reason : Run → String
  stale_reason x = join "" (
      "abandoned: still running "
      ∷ decimal (minutes_since (read x.started_at))
      ∷ " min after it started (limit 30 min); the process ended without recording a result"
      ∷ [])

  -- The loop over the selected rows.
  unfoldable pub sweep_stale : List Run → Radar → Radar × List ℕ
  unfolding abandon_run
  sweep_stale [] r = (r, [])
  sweep_stale (row ∷ rows) r =
      let (closed, changed) = abandon_run row.id (stale_reason row) r in
      let (swept, ids) = sweep_stale rows closed in
      let skipped = sweep_stale rows r in
      if too_old (read row.started_at)
      then (swept, if changed then row.id ∷ ids else ids)
      else skipped

  unfoldable pub reconcile_stale_runs : Radar → Radar × List ℕ
  unfolding sweep_stale
  reconcile_stale_runs r =
      sweep_stale (sort (λ a b. leb a.id b.id) (select (λ x. is_running x && is_bounded x) r.runs))
        r
