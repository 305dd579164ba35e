-- ===== src/Socks2Socks.antt =====
-- src/socks2socks.rs: the clients of a SOCKS5 proxy.
pub mod Client
pub mod Handle
pub mod Udp
pub mod Server
