-- ===== src/Lookup/Convert.antt =====
-- lookup_proj/convert.c: a text of words and definitions to a file of records.
pub mod Defs
pub mod Entries
pub mod Spins
