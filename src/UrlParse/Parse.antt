-- ===== src/UrlParse/Parse.antt =====
-- `ParseResult` and `urlparse` of httpxp/_urlparse.py.
mod Tests
use httpxp.Prelude.{
  Bool, Option, Text, [], all, any, codes, ends_with, false, if◌then◌else◌, is_nil, leb, length,
  lower, ltb, mem, none, not, partition, some, starts_with, true, ℕ, ◌&&◌, ◌++◌, ◌==◌, ◌||◌, ◌∷◌,
  nat_eq,
}
use httpxp.Exceptions.{invalid_url}
use httpxp.Exceptions.Result.{Result, ok, ◌>>=◌, ◌>>◌, ensure}
use httpxp.UrlParse.Chars.{
  username_safe, password_safe, userinfo_safe, path_safe, query_safe, frag_safe,
}
use httpxp.UrlParse.Quote.{quote}
use httpxp.UrlParse.Path.{validate_path, normalize_path}
use httpxp.UrlParse.Regex.{
  UrlDict, match_url, AuthorityDict, match_authority_parts, is_authority_char, is_path_char,
  is_query_char, fits_scheme, fits_host,
}
use httpxp.UrlParse.Port.{ℤ, int_to_str, normalize_port}
use httpxp.UrlParse.Host.{Platform, encode_host}

pub record ParseResult : Type 0 where
  pub scheme : Text
  pub userinfo : Text
  pub host : Text
  pub port : Option ℤ
  pub path : Text
  pub query : Option Text
  pub fragment : Option Text

-- `f"[{self.host}]" if ":" in self.host else self.host`
host_text : Text → Text
host_text host = if mem b':' host then codes "[" ++ host ++ codes "]" else host

-- `f":{self.port}" if self.port is not None else ""`
port_text : Option ℤ → Text
port_text none = []
port_text (some p) = b':' ∷ int_to_str p

unfoldable pub netloc : ParseResult → Text
unfolding host_text port_text
netloc r = host_text r.host ++ port_text r.port

pub authority : ParseResult → Text
authority r =
    (if is_nil r.userinfo then [] else r.userinfo ++ codes "@")
    ++ host_text r.host
    ++ port_text r.port

-- `f"{c}{value}" if value is not None else ""`
marked : ℕ → Option Text → Text
marked c none = []
marked c (some s) = c ∷ s

-- `__str__`
pub to_str : ParseResult → Text
unfolding host_text port_text authority marked int_to_str
to_str r =
    (if is_nil r.scheme then [] else r.scheme ++ codes ":")
    ++ (if is_nil (authority r) then [] else codes "//" ++ authority r)
    ++ r.path
    ++ marked b'?' r.query
    ++ marked b'#' r.fragment

-- A keyword argument: absent, `None`, or a text. A port that is an integer stands as its text.
abbrev pub Arg : Type 0
Arg = Option (Option Text)

-- The keyword arguments that the regular expressions know, and those that are replaced first.
pub record Kwargs : Type 0 where
  pub scheme : Arg
  pub authority : Arg
  pub path : Arg
  pub query : Arg
  pub fragment : Arg
  pub userinfo : Arg
  pub host : Arg
  pub port : Arg
  pub netloc : Arg
  pub username : Arg
  pub password : Arg
  pub raw_path : Arg

abbrev pub no_kwargs : Kwargs
no_kwargs = record {
  scheme = none;
  authority = none;
  path = none;
  query = none;
  fragment = none;
  userinfo = none;
  host = none;
  port = none;
  netloc = none;
  username = none;
  password = none;
  raw_path = none;
}

max_url_length : ℕ
max_url_length = 65536

-- `any(char.isascii() and not char.isprintable() for char in s)`
has_control : Text → Bool
has_control s = any (λ c. ltb c 0x20 || c == 0x7F) s

-- the first two tests of a text
acceptable : Text → Bool
acceptable s = leb (length s) max_url_length && not (has_control s)

-- `value or ""`
text_of : Option Text → Text
text_of none = []
text_of (some s) = s

given_text : Arg → Text
given_text none = []
given_text (some v) = text_of v

-- "netloc" becomes "host" and "port"
use_netloc : Arg → Kwargs → Kwargs
use_netloc none k = k
use_netloc (some v) k =
    let (host, _, port) = partition b':' (text_of v) in
    record k { host = some (some host); port = some (some port); netloc = none }

-- "username" and "password" become "userinfo"
user_text : Text → Text → Text
user_text username password =
    if is_nil password then username else username ++ codes ":" ++ password

use_userinfo : Kwargs → Kwargs
use_userinfo k = record k {
  userinfo = some (
      some (
        user_text (quote (given_text k.username) username_safe)
          (quote (given_text k.password) password_safe)));
  username = none;
  password = none;
}

is_given : Arg → Bool
is_given none = false
is_given (some _) = true

use_username : Kwargs → Kwargs
use_username k = if is_given k.username || is_given k.password then use_userinfo k else k

-- "raw_path" becomes "path" and "query"
use_raw_path : Arg → Kwargs → Kwargs
use_raw_path none k = k
use_raw_path (some v) k =
    let (path, found, query) = partition b'?' (text_of v) in
    record k {
      path = some (some path);
      query = some (if found then some query else none);
      raw_path = none;
    }

-- an IPv6 address is put in brackets
bracket_host : Text → Option Text → Option Text
bracket_host host given =
    if mem b':' host && not (starts_with host (codes "[") && ends_with host (codes "]"))
    then some (codes "[" ++ host ++ codes "]")
    else given

use_host : Arg → Kwargs → Kwargs
use_host none k = k
use_host (some v) k = record k { host = some (bracket_host (text_of v) v) }

prepare : Kwargs → Kwargs
prepare k =
    let k₁ = use_netloc k.netloc k in
    let k₂ = use_username k₁ in let k₃ = use_raw_path k₂.raw_path k₂ in use_host k₃.host k₃

-- the loop over the arguments that are not `None`
fits : (Text → Bool) → Arg → Bool
fits regex none = true
fits regex (some none) = true
fits regex (some (some s)) = acceptable s && regex s

all_fit : Kwargs → Bool
all_fit k =
    fits fits_scheme k.scheme
    && fits (all is_authority_char) k.authority
    && fits (all is_path_char) k.path
    && fits (all is_query_char) k.query
    && fits (λ _. true) k.fragment
    && fits (λ s. not (mem b'@' s)) k.userinfo
    && fits fits_host k.host
    && fits (λ _. true) k.port

-- `kwargs.get(key, found)`
override : Arg → Option Text → Option Text
override none found = found
override (some v) found = v

quoted : Text → Option Text → Option Text
quoted safe none = none
quoted safe (some s) = some (quote s safe)

is_some {ℓ} : {A : Type ℓ} → Option A → Bool
is_some none = false
is_some (some _) = true

normal_path : Bool → Bool → Text → Text
normal_path has_scheme has_authority path =
    if has_scheme || has_authority then normalize_path path else path

module _ (platform : Platform) where
  -- the components once they are taken from the arguments or the text
  pub build :
      Text → Text → Text → Option Text → Text → Option Text → Option Text → Result ParseResult
  build scheme userinfo host port path query frag = do
    let parsed_scheme = lower scheme
    let parsed_userinfo = quote userinfo userinfo_safe
    parsed_host ← encode_host platform host
    parsed_port ← normalize_port platform.int_of port scheme
    let has_scheme = not (is_nil parsed_scheme)
    let has_authority =
        not (is_nil parsed_userinfo) || not (is_nil parsed_host) || is_some parsed_port
    validate_path path has_scheme has_authority
    ok (record {
      scheme = parsed_scheme;
      userinfo = parsed_userinfo;
      host = parsed_host;
      port = parsed_port;
      path = quote (normal_path has_scheme has_authority path) path_safe;
      query = quoted query_safe query;
      fragment = quoted frag_safe frag;
    })

  parse_authority : UrlDict → Kwargs → AuthorityDict → Result ParseResult
  parse_authority url_dict k a =
      build (text_of (override k.scheme url_dict.scheme)) (text_of (override k.userinfo a.userinfo))
        (text_of (override k.host (some a.host))) (override k.port (some a.port))
        (text_of (override k.path (some url_dict.path))) (override k.query url_dict.query)
        (override k.fragment url_dict.fragment)

  parse_prepared : Text → Kwargs → Result ParseResult
  parse_prepared url k =
      let url_dict = match_url url in
      parse_authority url_dict k
        (match_authority_parts (text_of (override k.authority url_dict.authority)))

  pub urlparse : Text → Kwargs → Result ParseResult
  unfolding max_url_length has_control acceptable text_of given_text use_netloc user_text
      use_userinfo is_given use_username use_raw_path bracket_host use_host prepare fits all_fit
      override quoted is_some normal_path build parse_authority parse_prepared match_url
      match_authority_parts encode_host normalize_port quote path_safe query_safe frag_safe
      userinfo_safe username_safe password_safe validate_path normalize_path partition starts_with
      ends_with lower fits_scheme fits_host is_authority_char is_path_char is_query_char
  urlparse url kwargs = do
    ensure (acceptable url) invalid_url
    let k = prepare kwargs
    ensure (all_fit k) invalid_url
    parse_prepared url k
