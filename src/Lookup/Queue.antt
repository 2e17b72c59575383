-- ===== src/Lookup/Queue.antt =====
-- lookup_proj/lookup4.c and msgq_server.c: a client and a server over a message queue.
pub mod Defs
pub mod Delivery
pub mod Main
