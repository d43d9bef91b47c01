-- ===== src/Family.antt =====
-- The deterministic decisions about the family's calendars: src/family/rules.py and
-- src/family/leg_status.py.
pub mod Events
pub mod Addresses
pub mod Location
pub mod QuietHours
pub mod Commutes
pub mod Overlaps
pub mod Conflicts
