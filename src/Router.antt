-- ===== src/Router.antt =====
-- The router of tema1/.
pub mod Checksum
pub mod Route
pub mod Layout
pub mod Packet
pub mod Arp
pub mod Step
pub mod Hwaddr
mod Tests
