-- ===== src/Tls.antt =====
-- src/tls: the certificates.
pub mod Contexts
