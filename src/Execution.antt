-- ===== src/Execution.antt =====
-- The execution envelope: its data, its validation, its integrity seal, and the transitions that
-- a store admits.
pub mod Types
pub mod Codec
pub mod Validate
pub mod Transition
pub mod Migration
pub mod Sample
