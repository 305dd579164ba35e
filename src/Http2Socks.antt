-- ===== src/Http2Socks.antt =====
-- src/http2socks.rs: the requests of an HTTP proxy's clients.
pub mod World
pub mod Authorization
pub mod Proxy
