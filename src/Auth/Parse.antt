-- ===== src/Auth/Parse.antt =====
-- The challenge of a server: `_parse_challenge` of httpxp/_auth.py, with `parse_http_list` of Python's
-- urllib and `unquote` of httpxp/_utils.py.
use httpxp.Prelude.{
  ◌&&◌, Bool, Bytes, List, Option, Text, [], codes, false, if◌then◌else◌, is_nil, length, lower,
  map, none, not, some, strip, take, true, ℕ, ◌++◌, ◌-◌, ◌==◌, ◌∷◌, nat_eq, list_eq,
}
use httpxp.Codec.{encode_utf8}
use httpxp.Dict
use httpxp.Dict.{Dict}
use httpxp.Exceptions.{assertion_error, index_error, protocol_error, value_error}
use httpxp.Exceptions.Result.{Result, ok, err, ensure, ◌>>=◌, ◌>>◌}

pub record Challenge : Type 0 where
  pub realm : Bytes
  pub nonce : Bytes
  pub algorithm : Text
  pub opaque : Option Bytes
  pub qop : Option Bytes

-- `escape` and `quote` of the loop
pub record ListState : Type 0 where
  pub escape : Bool
  pub quote : Bool

unfoldable pub finish_part : Text → List Text
finish_part part = if is_nil part then [] else part ∷ []

-- the loop of `parse_http_list` on the part so far
unfoldable pub list_parts : Text → ListState → Text → List Text
list_parts [] s part = finish_part part
list_parts (cur ∷ rest) s part =
    let plain = list_parts rest (record s { escape = false }) (part ++ cur ∷ []) in
    let escaped = list_parts rest (record s { escape = true }) part in
    let toggled = list_parts rest (record s { quote = not s.quote }) (part ++ cur ∷ []) in
    let cut = part ∷ list_parts rest s [] in
    if s.escape
    then plain
    else if s.quote
    then (if cur == b'\\' then escaped else if cur == b'"' then toggled else plain)
    else if cur == b','
    then cut
    else if cur == b'"'
    then toggled
    else plain

unfoldable pub parse_http_list : Text → List Text
parse_http_list s = map strip (list_parts s (record { escape = false; quote = false }) [])

-- `value[1:-1] if value[0] == value[-1] == '"' else value`
last_char : ℕ → Text → ℕ
last_char c [] = c
last_char c (d ∷ s) = last_char d s

pub unquote : Text → Result Text
unquote [] = err index_error
unquote (c ∷ s) = ok (if c == b'"' && last_char c s == b'"' then take (length s - 1) s else c ∷ s)

-- the text before the first separator and the text behind it, if there is one
pub cut_at : ℕ → Text → Option (Text × Text)
cut_at sep [] = none
cut_at sep (c ∷ s) =
    let rest = cut_at sep s in
    if c == sep then some ([], s) else elim rest [ none ↦ none | some (a, b) ↦ some (c ∷ a, b) ]

-- `field.strip().split("=", 1)` in two parts
key_and_value : Text → Result (Text × Text)
key_and_value field = elim (cut_at b'=' (strip field)) [ none ↦ err value_error | some p ↦ ok p ]

header_dict : List Text → Dict Text → Result (Dict Text)
header_dict [] d = ok d
header_dict (field ∷ fields) d = do
  p ← key_and_value field
  value ← unquote p.1
  header_dict fields (Dict.put p.0 value d)

-- a KeyError becomes a ProtocolError
required : Text → Dict Text → Result Text
required key d = elim (Dict.lookup key d) [ none ↦ err protocol_error | some v ↦ ok v ]

given_bytes : Option Text → Option Bytes
given_bytes none = none
given_bytes (some s) = some (encode_utf8 s)

or_md5 : Option Text → Text
or_md5 none = codes "MD5"
or_md5 (some s) = s

challenge_of : Dict Text → Result Challenge
challenge_of d = do
  realm ← required (codes "realm") d
  nonce ← required (codes "nonce") d
  ok (record {
    realm = encode_utf8 realm;
    nonce = encode_utf8 nonce;
    algorithm = or_md5 (Dict.lookup (codes "algorithm") d);
    opaque = given_bytes (Dict.lookup (codes "opaque") d);
    qop = given_bytes (Dict.lookup (codes "qop") d);
  })

-- `auth_header.partition(" ")`
scheme_and_fields : Text → Text × Text
scheme_and_fields s = elim (cut_at b' ' s) [ none ↦ (s, []) | some p ↦ p ]

pub parse_challenge : Text → Result Challenge
parse_challenge auth_header = do
  ensure (lower (scheme_and_fields auth_header).0 == codes "digest") assertion_error
  d ← header_dict (parse_http_list (scheme_and_fields auth_header).1) []
  challenge_of d
