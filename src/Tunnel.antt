-- ===== src/Tunnel.antt =====
-- tunnel/: the reverse tunnel, its frames and its server.
pub mod Frames
pub mod Server
