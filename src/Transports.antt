-- ===== src/Transports.antt =====
-- httpxp/_transports
pub mod Samples
pub mod Asgi
pub mod Http
pub mod Wsgi
