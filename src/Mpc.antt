-- ===== src/Mpc.antt =====
-- round-based/src/mpc: a party of the protocol, and how it routes messages to rounds.
pub mod Errors
pub mod Protocol
pub mod Process
pub mod Router
pub mod Party
pub mod Tests
