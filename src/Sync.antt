-- ===== src/Sync.antt =====
-- The synchronization examples (examples/mod11-synchronization).
pub mod Sums
pub mod Stack
pub mod Counter
pub mod Tellers
pub mod Jobs
pub mod ReadersWriters
pub mod Area
pub mod SharedCounter
pub mod SharedStack
mod Tests
