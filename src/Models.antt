-- ===== src/Models.antt =====
-- httpxp/_models.py
pub mod Headers
pub mod Request
pub mod Response
pub mod Cookies
