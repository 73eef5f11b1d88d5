-- ===== src/Engine.antt =====
-- The engine: what runs the steps over the store and the state machine.
pub mod Artifacts
pub mod Children
pub mod Steps
pub mod Runner
pub mod Coordinator
