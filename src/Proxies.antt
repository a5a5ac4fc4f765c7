-- ===== src/Proxies.antt =====
-- `URLPattern` and `get_environment_proxies` of httpxp/_utils.py, and the choice of a transport by
-- `Client` of httpxp/_client.py, which keeps its mounts sorted by the patterns.
mod Fits
mod Matching
mod Order
mod Tests
use httpxp.Prelude.{
  Bool, List, Option, Text, [], codes, drop, false, if◌then◌else◌, is_infix, is_nil, length, lower,
  ltb, map, mem, none, not, some, split, starts_with, strip, true, ℕ, ◌&&◌, ◌++◌, ◌-◌, ◌==◌, ◌||◌,
  ◌∷◌, nat_eq, list_eq,
}
use httpxp.Exceptions.{value_error}
use httpxp.Exceptions.Result
use httpxp.Exceptions.Result.{Result, ok, ◌>>=◌, ◌>>◌, ensure}
use httpxp.Dict
use httpxp.Dict.{Dict}
use httpxp.UrlParse.Port.{ℤ, port_eq}
use httpxp.Urls.Url
use httpxp.Urls.Url.{Url, UrlPlatform}

-- What `host_regex` matches; the text is the domain, which `re.escape` takes literally. A host holds
-- no line break.
pub data HostRegex : Type 0 where
  -- `^.+\.domain$`
  below : Text → HostRegex
  -- `^(.+\.)?domain$`
  at_or_below : Text → HostRegex
  -- `^domain$`
  exactly : Text → HostRegex

pub record UrlPattern : Type 0 where
  pub pattern : Text
  pub scheme : Text
  pub host : Text
  pub port : Option ℤ
  pub host_regex : Option HostRegex

-- whether something stands in front of the suffix
pub is_below : Text → Text → Bool
is_below host suffix =
    ltb (length suffix) (length host) && drop (length host - length suffix) host == suffix

pub host_matches : HostRegex → Text → Bool
host_matches (below domain) host = is_below host (b'.' ∷ domain)
host_matches (at_or_below domain) host = host == domain || is_below host (b'.' ∷ domain)
host_matches (exactly domain) host = host == domain

-- the branches on the host of the pattern
pub host_regex_of : Text → Option HostRegex
host_regex_of host =
    if is_nil host || host == codes "*"
    then none
    else if starts_with host (codes "*.")
    then some (below (drop 2 host))
    else if starts_with host (codes "*")
    then some (at_or_below (drop 1 host))
    else some (exactly host)

regex_fits : Option HostRegex → Result Text → Result Bool
regex_fits none host = ok true
regex_fits (some r) host = Result.◌>>=◌ host (λ h. ok (host_matches r h))

port_fits : Option ℤ → Option ℤ → Bool
port_fits none q = true
port_fits (some p) q = port_eq (some p) q

-- the order of `priority`, which counts the length of host and scheme downwards
pub record Priority : Type 0 where
  pub no_port : ℕ
  pub host_length : ℕ
  pub scheme_length : ℕ

port_priority : Option ℤ → ℕ
port_priority none = 1
port_priority (some _) = 0

pub priority : UrlPattern → Priority
priority p = record {
  no_port = port_priority p.port;
  host_length = length p.host;
  scheme_length = length p.scheme;
}

pub priority_lt : Priority → Priority → Bool
priority_lt p q =
    ltb p.no_port q.no_port
    || (p.no_port == q.no_port
        && (ltb q.host_length p.host_length
            || (p.host_length == q.host_length && ltb q.scheme_length p.scheme_length)))

-- `__lt__`
pub lt : UrlPattern → UrlPattern → Bool
lt p q = priority_lt (priority p) (priority q)

module _ (platform : UrlPlatform) where
  pub pattern_of : Text → Url → Text → UrlPattern
  pattern_of pattern url host = record {
    pattern = pattern;
    scheme = if url.scheme == codes "all" then [] else url.scheme;
    host = if host == codes "*" then [] else host;
    port = url.port;
    host_regex = host_regex_of host;
  }

  -- `URLPattern(pattern)`
  pub init : Text → Result UrlPattern
  init pattern = do
    ensure (is_nil pattern || mem b':' pattern) value_error
    url ← Url.parse platform pattern
    host ← Url.host platform url
    ok (pattern_of pattern url host)

  -- the test of the host, for which alone the host of the URL is read
  pub host_fits : UrlPattern → Url → Result Bool
  host_fits p other =
      if is_nil p.host then ok true else regex_fits p.host_regex (Url.host platform other)

  pub matches : UrlPattern → Url → Result Bool
  matches p other =
      if not (is_nil p.scheme) && not (p.scheme == other.scheme)
      then ok false
      else Result.◌>>=◌ (host_fits p other) (λ fits. ok (fits && port_fits p.port other.port))

-- A transport is only handed on.
pub record Mount : Type 0 where
  pub pattern : UrlPattern
  pub transport : Option ℕ

-- `sorted`, which is stable: a mount stands behind those that come first in the order
insert_mount : Mount → List Mount → List Mount
insert_mount m [] = m ∷ []
insert_mount m (n ∷ mounts) =
    let behind = n ∷ insert_mount m mounts in
    if lt n.pattern m.pattern then behind else m ∷ n ∷ mounts

pub sorted : List Mount → List Mount
sorted [] = []
sorted (m ∷ mounts) = insert_mount m (sorted mounts)

module _ (platform : UrlPlatform) where
  -- the loop of `_transport_for_url`
  pub first_match : List Mount → Url → Result (Option Mount)
  first_match [] url = ok none
  first_match (m ∷ mounts) url =
      let rest = first_match mounts url in
      Result.◌>>=◌ (matches platform m.pattern url) (λ fits. if fits then ok (some m) else rest)

  or_default : ℕ → Option ℕ → ℕ
  or_default transport none = transport
  or_default transport (some t) = t

  mounted : ℕ → Option Mount → ℕ
  mounted transport none = transport
  mounted transport (some m) = or_default transport m.transport

  pub transport_for_url : ℕ → List Mount → Url → Result ℕ
  transport_for_url transport mounts url =
      Result.◌>>=◌ (first_match mounts url) (λ m. ok (mounted transport m))

with_scheme : Text → Text
with_scheme hostname =
    if is_infix (codes "://") hostname then hostname else codes "http://" ++ hostname

-- `if proxy_info.get(scheme)`
mount_scheme : Dict Text → Text → Dict (Option Text) → Dict (Option Text)
mount_scheme proxy_info scheme mounts = elim (Dict.lookup scheme proxy_info) [
  | none ↦ mounts
  | some hostname ↦
      if is_nil hostname
      then mounts
      else Dict.put (scheme ++ codes "://") (some (with_scheme hostname)) mounts
]

-- `hostname.split("/")[0]`
before_slash : Text → Text
before_slash [] = []
before_slash (c ∷ s) = let rest = before_slash s in if c == b'/' then [] else c ∷ rest

-- `ipaddress.IPv4Address` and `IPv6Address` accept a text
module _ (is_ipv4_address is_ipv6_address : Text → Bool) where
  is_ipv4_hostname : Text → Bool
  is_ipv4_hostname hostname = is_ipv4_address (before_slash hostname)

  is_ipv6_hostname : Text → Bool
  is_ipv6_hostname hostname = is_ipv6_address (before_slash hostname)

  no_proxy_key : Text → Text
  no_proxy_key hostname =
      if is_infix (codes "://") hostname
      then hostname
      else if is_ipv4_hostname hostname
      then codes "all://" ++ hostname
      else if is_ipv6_hostname hostname
      then codes "all://[" ++ (hostname ++ codes "]")
      else if lower hostname == codes "localhost"
      then codes "all://" ++ hostname
      else codes "all://*" ++ hostname

  -- the loop over the hosts without a proxy; a star ends it
  no_proxies : List Text → Dict (Option Text) → Dict (Option Text)
  no_proxies [] mounts = mounts
  no_proxies (hostname ∷ hosts) mounts =
      let next =
        no_proxies hosts
          (if is_nil hostname then mounts else Dict.put (no_proxy_key hostname) none mounts) in
      if hostname == codes "*" then [] else next

  no_value : Option Text → Text
  no_value none = []
  no_value (some s) = s

  -- `getproxies` of urllib is the argument
  pub get_environment_proxies : Dict Text → Dict (Option Text)
  get_environment_proxies proxy_info =
      no_proxies (map strip (split b',' (no_value (Dict.lookup (codes "no") proxy_info)))) (
        mount_scheme proxy_info (codes "all")
          (mount_scheme proxy_info (codes "https") (mount_scheme proxy_info (codes "http") [])))
