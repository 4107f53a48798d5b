-- ===== src/Policy.antt =====
-- src/policy: what a site decides about a request.
pub mod UrlAuth
pub mod Cidr
pub mod Request
