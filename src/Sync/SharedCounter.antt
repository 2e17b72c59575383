-- ===== src/Sync/SharedCounter.antt =====
-- The processes that count one variable up under a mutex.
pub mod Defs
pub mod Exact
pub mod Progress
pub mod Lost
