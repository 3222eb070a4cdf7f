-- ===== src/Relay.antt =====
-- internal/relay: the server that pairs a published console with those who attach to it.
pub mod Splice
pub mod Server
pub mod Lines
pub mod Pairing
pub mod Tickets
pub mod Serve
mod Tests
