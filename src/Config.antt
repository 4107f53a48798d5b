-- ===== src/Config.antt =====
-- src/config: the configuration that the server runs with.
pub mod Runtime
