-- ===== src/EchoBroadcast.antt =====
-- round-based/src/echo_broadcast: a round of echo messages for each round that needs a reliable
-- broadcast.
pub mod Errors
pub mod Message
pub mod Send
pub mod Store
pub mod Rounds
pub mod Wrap
pub mod Tests
