-- ===== src/TravelBlocks.antt =====
-- src/family/travel_blocks_*.py: the commute blocks that the sweep keeps on the calendars.
pub mod Model
pub mod Blocks
pub mod Reconcile
pub mod Desired
pub mod Pricing
pub mod Planned
pub mod Plan
pub mod Write
