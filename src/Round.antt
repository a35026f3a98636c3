-- ===== src/Round.antt =====
-- round-based/src/round: where the messages of one round are collected.
pub mod SimpleStore
pub mod Store
pub mod Input
mod Tests
