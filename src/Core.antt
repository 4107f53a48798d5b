-- ===== src/Core.antt =====
-- src/core: what the server keeps about the clients that it serves.
pub mod Registry
