-- ===== src/StateMachine.antt =====
-- round-based/src/state_machine: a protocol that is written as a future, run step by step.
pub mod SharedState
pub mod Delivery
pub mod Machine
pub mod Polite
mod Tests
