-- ===== src/Lookup/Shared.antt =====
-- lookup_proj/lookup6.c and shm_server.c: clients and a server over shared memory.
pub mod Defs
pub mod SetUp
pub mod Answers
pub mod Progress
pub mod Race
