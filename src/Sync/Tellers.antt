-- ===== src/Sync/Tellers.antt =====
-- examples/mod11-synchronization/threadonly/sem.c and procnthread/proc_sem.c.
pub mod Defs
pub mod Served
pub mod Progress
pub mod Termination
