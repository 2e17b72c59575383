-- ===== src/Examples.antt =====
-- Two of the shorter examples: a sum by several threads (examples/mod07-threads) and the environment
-- of a process (examples/mod03-system.and.process.information).
pub mod Parallel
pub mod Environment
mod Tests
