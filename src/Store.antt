-- ===== src/Store.antt =====
-- The store: the SQLite database behind connection.py, repository.py, work_items.py,
-- step_run_log.py and event_log.py.
pub mod Table
pub mod Rows
pub mod Columns
pub mod World
pub mod Gives
pub mod Quiet
pub mod Plain
pub mod Interleaving
pub mod Events
pub mod Repository
pub mod Items
pub mod Artifacts
pub mod StepRuns
