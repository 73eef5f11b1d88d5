-- ===== src/Tests.antt =====
-- Runs of the modelled code on concrete tasks, items and databases.
pub mod Data
pub mod Stores
pub mod Machines
pub mod Runs
pub mod Steps
mod Engine
mod Rounds
mod Kernel
mod Events
