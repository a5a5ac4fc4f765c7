-- ===== src/Config.antt =====
-- httpxp/_config.py: `Timeout`, `Limits` and `Proxy`. The numbers of seconds are of a type that is a
-- parameter, since they are only handed on.
mod Defaults
use httpxp.Prelude.{
  Bool, Bytes, List, Option, Text, [], codes, false, if◌then◌else◌, is_nil, mem, none, not, some,
  true, ℕ, ◌&&◌, ◌||◌, ◌∷◌, nat_eq, list_eq,
}
use httpxp.Codec.{encode_utf8}
use httpxp.Exceptions.{assertion_error, value_error}
use httpxp.Exceptions.Result.{Result, ok, err, ensure, ◌>>=◌, ◌>>◌}
use httpxp.Models.Headers.Exec.{Headers}
use httpxp.Urls.Url
use httpxp.Urls.Url.{Url, UrlPlatform}
use httpxp.Urls.Url.Parts

-- A keyword argument: UNSET, or a number of seconds or None.
pub data Setting (S : Type 0) : Type 0 where
  unset : Setting S
  set_to : Option S → Setting S

pub record Timeout (S : Type 0) : Type 0 where
  pub connect : Option S
  pub read : Option S
  pub write : Option S
  pub pool : Option S

-- `TimeoutTypes`, or UNSET; a tuple has at least two entries
pub data TimeoutTypes (S : Type 0) : Type 0 where
  missing : TimeoutTypes S
  seconds : Option S → TimeoutTypes S
  tuple : Option S → Option S → List (Option S) → TimeoutTypes S
  timeout : Timeout S → TimeoutTypes S

pub record Keywords (S : Type 0) : Type 0 where
  pub connect : Setting S
  pub read : Setting S
  pub write : Setting S
  pub pool : Setting S

module _ {S : Type 0} where
  is_unset : Setting S → Bool
  is_unset unset = true
  is_unset (set_to _) = false

  -- the entries of a tuple behind the second
  third : List (Option S) → Option S
  third [] = none
  third (x ∷ xs) = x

  fourth : List (Option S) → Option S
  fourth [] = none
  fourth (x ∷ []) = none
  fourth (x ∷ y ∷ xs) = y

  -- the keyword, or else the default
  or_default : Option S → Setting S → Option S
  or_default default unset = default
  or_default default (set_to x) = x

  with_default : Option S → Keywords S → Timeout S
  with_default default k = record {
    connect = or_default default k.connect;
    read = or_default default k.read;
    write = or_default default k.write;
    pool = or_default default k.pool;
  }

  all_set : Keywords S → Bool
  all_set k = not (is_unset k.connect || (is_unset k.read || (is_unset k.write || is_unset k.pool)))

  none_set : Keywords S → Bool
  none_set k = is_unset k.connect && (is_unset k.read && (is_unset k.write && is_unset k.pool))

  -- the branches behind that on a tuple; where all keywords are set the default is not used
  from_keywords : TimeoutTypes S → Keywords S → Result (Timeout S)
  from_keywords (seconds default) k =
      if all_set k then ok (with_default none k) else ok (with_default default k)
  from_keywords t k = if all_set k then ok (with_default none k) else err value_error

  -- the constructor
  pub init : TimeoutTypes S → Keywords S → Result (Timeout S)
  init (timeout t) k = do ensure (none_set k) assertion_error; ok t
  init (tuple c r rest) k =
      ok (record { connect = c; read = r; write = third rest; pool = fourth rest })
  init t k = from_keywords t k

  pub as_dict : Timeout S → List (Text × Option S)
  as_dict t =
      (codes "connect", t.connect)
      ∷ (codes "read", t.read)
      ∷ (codes "write", t.write)
      ∷ (codes "pool", t.pool)
      ∷ []

pub record Limits (S : Type 0) : Type 0 where
  pub max_connections : Option ℕ
  pub max_keepalive_connections : Option ℕ
  pub keepalive_expiry : Option S

pub record Proxy : Type 0 where
  pub url : Url
  pub auth : Option (Text × Text)
  pub headers : Headers

module _ (p : UrlPlatform) where
  -- the credentials of the URL move to `auth`
  proxy_of : Url → Option (Text × Text) → Headers → Result Proxy
  proxy_of url auth headers =
      if is_nil (Parts.username p url) && is_nil (Parts.password p url)
      then ok (record { url = url; auth = auth; headers = headers })
      else (do
        bare ← Url.without_credentials p url
        ok (record {
          url = bare;
          auth = some (Parts.username p url, Parts.password p url);
          headers = headers;
        }))

  -- the constructor, with the URL as a text
  pub init_proxy : Text → Option (Text × Text) → Headers → Result Proxy
  init_proxy text auth headers = do
    url ← Url.parse p text
    ensure (mem url.scheme (codes "http" ∷ codes "https" ∷ codes "socks5" ∷ codes "socks5h" ∷ []))
        value_error
    proxy_of url auth headers

pub raw_auth : Proxy → Option (Bytes × Bytes)
raw_auth proxy = elim proxy.auth [ none ↦ none | some a ↦ some (encode_utf8 a.0, encode_utf8 a.1) ]
