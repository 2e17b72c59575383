-- ===== src/Sync/ReadersWriters.antt =====
-- The readers and writers (threadonly/rw.c, procnthread/proc_rw.c).
pub mod Defs
pub mod Exclusion
pub mod Completion
