-- ===== src/Hub.antt =====
-- internal/hub: the ports of a jump host and the clients attached to them.
pub mod Ring
pub mod Types
pub mod Queue
pub mod Ports
pub mod Manager
pub mod Session
pub mod Loop
pub mod Conns
pub mod Links
pub mod Input
pub mod Listing
pub mod AutoOpen
mod Tests
