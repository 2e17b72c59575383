-- ===== src/Sync/Counter.antt =====
-- examples/mod11-synchronization/threadonly/mutex.c.
pub mod Defs
pub mod Total
