-- ===== src/Admin.antt =====
-- src/admin: the administration of the server.
pub mod Auth
