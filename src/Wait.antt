-- ===== src/Wait.antt =====
-- Durable waits: their records, the arbitration of deliveries, and cancellation.
pub mod Types
pub mod Validate
pub mod Arbitration
pub mod Decisions
pub mod Target
pub mod Delivery
pub mod Cancellation
pub mod Canceled
pub mod Examples
