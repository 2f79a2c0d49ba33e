-- ===== src/Proxy.antt =====
-- src/proxy/: what is done with a request on its way to a backend.
pub mod Config
pub mod Headers
pub mod Session
pub mod Grpc
pub mod Registry
pub mod Response
pub mod Apply
pub mod Forward
pub mod ClientIp
pub mod Context
pub mod Filter
pub mod Upstream
pub mod Peer
