-- ===== src/Router/Layout.antt =====
-- The headers that the router lays over a payload, as offsets of their fields in it.
pub mod Ether
pub mod Ip
pub mod Icmp
pub mod ArpPkt
