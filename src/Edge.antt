-- ===== src/Edge.antt =====
-- src/edge/mod.rs: the policy of a route, the response cache, the request windows and base64.
pub mod Policy
pub mod Cache
pub mod Limits
pub mod Base64
pub mod Files
pub mod Consul
pub mod Auth
pub mod Credentials
