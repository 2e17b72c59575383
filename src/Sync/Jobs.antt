-- ===== src/Sync/Jobs.antt =====
-- examples/mod11-synchronization/threadonly/ipcsem.c.
pub mod Defs
pub mod Resources
pub mod Progress
