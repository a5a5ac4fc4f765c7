-- ===== src/Codec.antt =====
-- The codecs by which the program turns `str` into `bytes` and back: ASCII, UTF-8 and ISO-8859-1 of
-- Python's standard library. A text is a list of code points that are no surrogates.
pub mod Utf8
pub mod Ascii
mod Tests
unfoldable pub use Utf8.*
use httpxp.Prelude.{Bytes, Text, all, if◌then◌else◌, ltb, none, some, ◌*◌}
use httpxp.Exceptions.{unicode_error}
use httpxp.Exceptions.Result.{Result, ok, err}

pub data Encoding : Type 0 where
  ascii utf8 latin1 : Encoding

-- `text.encode(encoding)`
unfoldable pub encode : Encoding → Text → Result Bytes
encode ascii s = if all (λ c. ltb c 128) s then ok s else err unicode_error
encode utf8 s = ok (encode_utf8 s)
encode latin1 s = if all (λ c. ltb c 256) s then ok s else err unicode_error

-- `data.decode(encoding)`
unfoldable pub decode : Encoding → Bytes → Result Text
decode ascii s = if all (λ c. ltb c 128) s then ok s else err unicode_error
decode utf8 s = elim (decode_utf8 s) [ none ↦ err unicode_error | some t ↦ ok t ]
decode latin1 s = ok s
