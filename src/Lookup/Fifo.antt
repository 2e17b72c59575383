-- ===== src/Lookup/Fifo.antt =====
-- lookup_proj/lookup3.c and fifo_server.c: a client and a server over named pipes.
pub mod Defs
pub mod Faults
pub mod Main
