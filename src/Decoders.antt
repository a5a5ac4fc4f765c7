-- ===== src/Decoders.antt =====
-- httpxp/_decoders.py
pub mod Chunker
pub mod Lines
pub mod Content
