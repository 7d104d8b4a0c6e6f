-- ===== src/Tunnel.antt =====
-- The device tunnel: gateway/internal/tunnel.
pub mod Acks
pub mod Registry
pub mod Conn
pub mod Hub
