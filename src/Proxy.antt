-- ===== src/Proxy.antt =====
-- src/proxy: what is decided about connections to the backends.
pub mod Limiter
pub mod Pool
pub mod Probe
