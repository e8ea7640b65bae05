-- ===== src/Network.antt =====
-- internal/network: the addresses that containers get.
pub mod Ipam
pub mod Inside
pub mod Netfilter
pub mod Host
