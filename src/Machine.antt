-- ===== src/Machine.antt =====
-- persistence/state_machine.py: every rule of how a task's state changes.
pub mod Outcome
pub mod Boundary
pub mod Finish
pub mod Scheduler
pub mod Actions
