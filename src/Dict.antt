-- ===== src/Dict.antt =====
-- Python's `dict` with text keys, which keeps the order of insertion: the built-in type that the
-- query parameters, the headers and the authentication use.
mod Defs
mod Laws
mod Keys
mod Append
unfoldable pub use Defs.*
unfoldable pub use Laws.*
pub use Keys.*
pub use Append.*
