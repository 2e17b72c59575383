-- ===== src/Sync/Stack.antt =====
-- examples/mod11-synchronization/threadonly/stack.c and stackMain.c.
pub mod Defs
pub mod Invariant
pub mod Progress
pub mod Contents
