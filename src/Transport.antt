-- ===== src/Transport.antt =====
-- internal/transport: how clients reach the broker.
pub mod Ws
pub mod Http
pub mod Fields
