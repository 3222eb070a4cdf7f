-- ===== src/Client.antt =====
-- cmd/sercon: the client.
pub mod Quote
pub mod Shell
pub mod Keys
pub mod Escapes
pub mod Replies
pub mod Collector
pub mod Args
pub mod Script
pub mod Link
mod Tests
