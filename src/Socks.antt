-- ===== src/Socks.antt =====
-- socks_server.cpp: the SOCKS4/4A proxy. One session reads a request, asks the firewall, and connects or
-- listens for the client.
pub mod Request
pub mod Firewall
pub mod Session
pub mod Relay
pub mod Child
mod Tests
