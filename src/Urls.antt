-- ===== src/Urls.antt =====
-- httpxp/_urls.py
pub mod QueryParams
pub mod Url
