-- ===== src/Gateway.antt =====
-- crates/gateway: the public SOCKS5 server.
mod Tests
pub mod Handler
pub mod Chain
pub mod Chained
pub mod Relayed
pub mod Tunnel
pub mod Server
pub mod ProxyClient
pub mod Metrics
