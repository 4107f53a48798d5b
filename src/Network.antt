-- ===== src/Network.antt =====
-- src/network: what is decided about a client's connection.
pub mod Admission
pub mod ClientIp
