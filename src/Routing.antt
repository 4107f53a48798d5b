-- ===== src/Routing.antt =====
-- src/routing: the normal form of host names, and the virtual hosts.
pub mod Host
pub mod Router
