-- ===== src/Net.antt =====
-- kernel/src/net: the network protocols.
pub mod Addr
pub mod Arp
pub mod Buffer
pub mod Checksum
pub mod Eth
pub mod Icmp
pub mod Ipv4
pub mod Tcp
pub mod Udp
mod Tests
