-- ===== src/Activity.antt =====
-- The durable activity journal: retry schedules, records, their validation and their steps.
pub mod Schedule
pub mod Types
pub mod Integrity
pub mod Record
pub mod Journal
pub mod Resolution
pub mod Retry
pub mod Decided
pub mod Examples
