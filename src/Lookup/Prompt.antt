-- ===== src/Lookup/Prompt.antt =====
-- lookup_proj/main.c: the program that asks for words.
pub mod Defs
pub mod Session
pub mod Untrimmed
