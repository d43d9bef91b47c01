-- ===== src/Tests.antt =====
-- The theorems at concrete inputs.
mod Samples
mod Blocks
mod Stored
mod Scans
mod Week
mod Household
mod Sweeps
mod Writes
mod Voices
