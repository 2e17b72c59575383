-- ===== src/Sync/Area.antt =====
-- How processes come to a shared area (procnthread/proc_mutex.c, proc_rw.c, proc_sem.c, proc_stack.c).
pub mod Defs
pub mod Weights
pub mod Once
pub mod SetUp
pub mod Faults
pub mod Race
