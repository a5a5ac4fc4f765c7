-- ===== src/UrlParse.antt =====
-- httpxp/_urlparse.py: parsing, validating and normalising URLs, a child for each of its parts.
pub mod Chars
pub mod Quote
pub mod Path
pub mod Regex
pub mod Port
pub mod Host
pub mod Parse
