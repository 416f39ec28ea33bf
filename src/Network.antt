-- ===== src/Network.antt =====
-- The network policy of ext/curb_easy.c: which destinations a request may reach.
pub mod Prefix
pub mod Ipv4
pub mod Ipv6
pub mod Cidr
pub mod Host
pub mod Rules
pub mod Gate
