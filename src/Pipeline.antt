-- ===== src/Pipeline.antt =====
-- src/analysis/pipeline.py: one scan. Stage 1 gates Stage 2, verdicts are stored before cursors move,
-- and the run is closed on every path.
pub mod State
pub mod Services
pub mod Reminders
pub mod Analyze
pub mod Loop
pub mod Finish
pub mod Scan
pub mod Committed
pub mod Frozen
pub mod Stale
pub mod Runs
pub mod Closed
pub mod Funnel
pub mod Tallies
pub mod Totals
pub mod Balance
pub mod Balanced
