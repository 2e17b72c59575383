-- ===== src/Sync/SharedStack.antt =====
-- The stack that processes share (procnthread/proc_stack.c, proc_stackMain.c).
pub mod Defs
pub mod Counts
pub mod Invariant
pub mod Few
pub mod Progress
pub mod Termination
pub mod Deadlock
