-- ===== src/Auth/Header.antt =====
-- The header that answers a challenge: `_build_auth_header`, `_get_client_nonce`,
-- `_get_header_value` and `_resolve_qop` of `DigestAuth` in httpxp/_auth.py.
use httpxp.Prelude.{
  Bool, Bytes, List, Option, Text, [], codes, ends_with, if◌then◌else◌, is_nil, join, length, lower,
  ltb, map, mem, none, not, some, split, suc, take, zero, ℕ, ◌%◌, ◌++◌, ◌+◌, ◌-◌, ◌/◌, ◌==◌, ◌||◌,
  ◌∷◌, nat_eq, list_eq,
}
use httpxp.Codec.{decode, encode_utf8, utf8}
use httpxp.Exceptions.{key_error, not_implemented_error, protocol_error}
use httpxp.Exceptions.Result
use httpxp.Exceptions.Result.{Result, ok, err}
use httpxp.Client.Exec.{M, lift, pure, ◌>>=◌}
use httpxp.Client.Redirect.{Request}
use httpxp.Urls.Url.Parts.{raw_path}
use httpxp.Auth.Parse.{Challenge}

pub record DigestAuth : Type 0 where
  pub username : Bytes
  pub password : Bytes
  pub last_challenge : Option Challenge
  pub nonce_count : ℕ

-- The digests of hashlib in hexadecimal, `str.upper`, and what `time.ctime` and `os.urandom`
-- answer.
pub record AuthPlatform : Type 0 where
  pub md5 : Bytes → Bytes
  pub sha1 : Bytes → Bytes
  pub sha256 : Bytes → Bytes
  pub sha512 : Bytes → Bytes
  pub upper : Text → Text
  pub ctime : Text
  pub urandom : Bytes

unfoldable pub digit : ℕ → ℕ
digit d = if ltb d 10 then d + 48 else d + 87

-- the digits to a base, with fuel
unfoldable pub digits : ℕ → ℕ → ℕ → Bytes
digits base zero n = []
digits base (suc fuel) n =
    let more = digits base fuel (n / base) ++ digit (n % base) ∷ [] in
    if ltb n base then digit n ∷ [] else more

unfoldable pub zeros : ℕ → Bytes
zeros zero = []
zeros (suc n) = b'0' ∷ zeros n

-- `b"%08x" % n`
unfoldable pub nc_value : ℕ → Bytes
nc_value n = let s = digits 16 (suc n) n in zeros (8 - length s) ++ s

-- the table of the hash functions
hash_function : AuthPlatform → Text → Result (Bytes → Bytes)
hash_function p name =
    if name == codes "MD5" || name == codes "MD5-SESS"
    then ok p.md5
    else if name == codes "SHA" || name == codes "SHA-SESS"
    then ok p.sha1
    else if name == codes "SHA-256" || name == codes "SHA-256-SESS"
    then ok p.sha256
    else if name == codes "SHA-512" || name == codes "SHA-512-SESS"
    then ok p.sha512
    else err key_error

-- `re.split(b", ?", qop)`: the space behind a comma goes
unfoldable pub drop_space : Bytes → Bytes
drop_space [] = []
drop_space (c ∷ s) = if c == b' ' then s else c ∷ s

unfoldable pub split_qop : List Bytes → List Bytes
split_qop [] = []
split_qop (part ∷ parts) = part ∷ map drop_space parts

unfoldable pub resolve_qop : Option Bytes → Result (Option Bytes)
resolve_qop none = ok none
resolve_qop (some qop) =
    let qops = split_qop (split b',' qop) in
    if mem (codes "auth") qops
    then ok (some (codes "auth"))
    else if qops == codes "auth-int" ∷ []
    then err not_implemented_error
    else err protocol_error

get_client_nonce : AuthPlatform → ℕ → Bytes → Bytes
get_client_nonce p nonce_count nonce = take 16 (
    p.sha1
      (digits 10 (suc nonce_count) nonce_count ++ (nonce ++ (encode_utf8 p.ctime ++ p.urandom))))

is_quoted : Text → Bool
is_quoted field = not (mem field (codes "algorithm" ∷ codes "qop" ∷ codes "nc" ∷ []))

header_field : Text → Text → Text
header_field field value =
    if is_quoted field
    then field ++ (codes "=\"" ++ (value ++ codes "\""))
    else field ++ (codes "=" ++ value)

header_fields : List (Text × Bytes) → Result (List Text)
header_fields [] = ok []
header_fields ((field, value) ∷ fields) =
    Result.◌>>=◌ (decode utf8 value)
      λ text. Result.◌>>=◌ (header_fields fields) λ rest. ok (header_field field text ∷ rest)

get_header_value : List (Text × Bytes) → Result Text
get_header_value fields = Result.◌>>=◌ (header_fields fields) λ parts. ok (join (codes ", ") parts)

opaque_field : Option Bytes → List (Text × Bytes)
opaque_field none = []
opaque_field (some opaque) = if is_nil opaque then [] else (codes "opaque", opaque) ∷ []

qop_fields : Option Bytes → Bytes → Bytes → List (Text × Bytes)
qop_fields none nc cnonce = []
qop_fields (some qop) nc cnonce =
    if is_nil qop
    then []
    else (codes "qop", codes "auth") ∷ (codes "nc", nc) ∷ (codes "cnonce", cnonce) ∷ []

digest_data : Option Bytes → Bytes → Bytes → Bytes → Bytes → Bytes → List Bytes
digest_data none ha1 nonce nc cnonce ha2 = ha1 ∷ nonce ∷ ha2 ∷ []
digest_data (some qop) ha1 nonce nc cnonce ha2 = ha1 ∷ nonce ∷ nc ∷ cnonce ∷ qop ∷ ha2 ∷ []

with_colons : List Bytes → Bytes
with_colons parts = join (codes ":") parts

-- `HA1`, which a session algorithm digests again
session_key : (Bytes → Bytes) → DigestAuth → Challenge → Bytes → Bytes
session_key digest a challenge cnonce =
    let ha1 = digest (with_colons (a.username ∷ challenge.realm ∷ a.password ∷ [])) in
    if ends_with (lower challenge.algorithm) (codes "-sess")
    then digest (with_colons (ha1 ∷ challenge.nonce ∷ cnonce ∷ []))
    else ha1

-- the fields of the header, for a count and a client nonce
format_args :
    (Bytes → Bytes)
    → DigestAuth
    → Challenge
    → Text
    → Bytes
    → Option Bytes
    → Bytes
    → Bytes
    → List (Text × Bytes)
format_args digest a challenge method path qop nc cnonce =
    let ha1 = session_key digest a challenge cnonce in
    let ha2 = digest (with_colons (encode_utf8 method ∷ path ∷ [])) in
    ((codes "username", a.username)
      ∷ (codes "realm", challenge.realm)
      ∷ (codes "nonce", challenge.nonce)
      ∷ (codes "uri", path)
      ∷ (codes "response", digest (with_colons (digest_data qop ha1 challenge.nonce nc cnonce ha2)))
      ∷ (codes "algorithm", encode_utf8 challenge.algorithm)
      ∷ [])
    ++ (opaque_field challenge.opaque ++ qop_fields qop nc cnonce)

-- `self._nonce_count += 1`, which returns what the count was
take_count : M DigestAuth ℕ
take_count a = (ok a.nonce_count, record a { nonce_count = suc a.nonce_count })

pub build_auth_header : AuthPlatform → Request → Challenge → M DigestAuth Text
build_auth_header p request challenge a =
    (do
      digest ← lift (hash_function p (p.upper challenge.algorithm))
      path ← lift (raw_path request.url)
      count ← take_count
      qop ← lift (resolve_qop challenge.qop)
      value ← lift (
          get_header_value (
            format_args digest a challenge request.method path qop (nc_value count)
              (get_client_nonce p count challenge.nonce)))
      pure (codes "Digest " ++ value))
      a
