-- ===== src/Lookup.antt =====
-- The dictionary exercise (lookup_proj).
pub mod Record
pub mod Start
pub mod Linear
pub mod Search
pub mod Mapped
pub mod Index
pub mod Remote
pub mod Convert
pub mod Prompt
pub mod Queue
pub mod Fifo
pub mod Shared
mod Tests
