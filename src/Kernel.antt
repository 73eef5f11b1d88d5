-- ===== src/Kernel.antt =====
-- The plugin kernel.
pub mod Compose
pub mod Events
