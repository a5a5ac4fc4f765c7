-- ===== src/UrlParse/Host.antt =====
-- `encode_host` of httpxp/_urlparse.py. The packages `ipaddress` and `idna` are parameters.
use httpxp.Prelude.{
  Bool, Option, Text, [], all, codes, drop, if◌then◌else◌, is_ascii, is_nil, length, lower, none,
  some, take, ◌++◌, ◌-◌,
}
use httpxp.Exceptions.{invalid_url}
use httpxp.Exceptions.Result.{Result, ok, err}
use httpxp.UrlParse.Chars.{sub_delims}
use httpxp.UrlParse.Quote.{quote}
use httpxp.UrlParse.Port.{ℤ}
use httpxp.UrlParse.Regex.{is_ipv4_style, is_ipv6_style}

-- What the parser takes from Python and its packages.
pub record Platform : Type 0 where
  -- whether `ipaddress.IPv4Address` and `IPv6Address` accept the text
  pub is_ipv4_address : Text → Bool
  pub is_ipv6_address : Text → Bool
  -- `idna.encode(host.lower())`, or nothing if it raises `IDNAError`
  pub idna_encode : Text → Option Text
  -- `int(port)`, or nothing if it raises `ValueError`
  pub int_of : Text → Option ℤ

-- `[1:-1]`
pub strip_ends : Text → Text
strip_ends s = take (length s - 2) (drop 1 s)

abbrev whatwg_safe : Text
whatwg_safe = codes "\"`{}%|\\"

module _ (platform : Platform) where
  idna_host : Option Text → Result Text
  idna_host none = err invalid_url
  idna_host (some s) = ok s

  unfoldable pub encode_host : Text → Result Text
  unfolding idna_host strip_ends is_ipv4_style is_ipv6_style quote sub_delims lower
  encode_host host =
      if is_nil host
      then ok []
      else if is_ipv4_style host
      then (if platform.is_ipv4_address host then ok host else err invalid_url)
      else if is_ipv6_style host
      then (if platform.is_ipv6_address (strip_ends host)
          then ok (strip_ends host)
          else err invalid_url)
      else if all is_ascii host
      then ok (quote (lower host) (sub_delims ++ whatwg_safe))
      else idna_host (platform.idna_encode host)
