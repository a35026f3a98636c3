-- ===== src/Sim.antt =====
-- round-based/src/sim/mod.rs: parties of a protocol run against one another in memory.
pub mod Queue
pub mod Run
pub mod Results
pub mod AsyncEnv
mod Tests
