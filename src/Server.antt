-- ===== src/Server.antt =====
-- The server's TUN side, rvpn/crates/rvpn-server/src/tun_server.rs.
pub mod IpPool
pub mod TunServer
pub mod Laws
mod Tests
