-- ===== src/UrlParse/Regex.antt =====
-- The regular expressions of httpxp/_urlparse.py, as the functions that they compute. No text that
-- reaches them holds a line feed, so `.` stands for every character.
use httpxp.Prelude.{
  Bool, Option, Text, [], all, codes, drop, ends_with, if◌then◌else◌, is_alpha, is_digit, is_nil,
  length, mem, none, not, some, split, starts_with, true, ℕ, ◌&&◌, ◌++◌, ◌==◌, ◌||◌, ◌∷◌, nat_eq,
  list_eq,
}

-- the longest prefix of characters that pass the test, and what stands behind it
pub span : (ℕ → Bool) → Text → Text × Text
span p [] = ([], [])
span p (c ∷ s) = let (a, b) = span p s in if p c then (c ∷ a, b) else ([], c ∷ s)

-- a character of `[a-zA-Z0-9+.-]`
is_scheme_char : ℕ → Bool
is_scheme_char c = is_alpha c || is_digit c || c == b'+' || c == b'.' || c == b'-'

-- `[^/?#]`, `[^?#]` and `[^#]`
unfoldable pub is_authority_char : ℕ → Bool
is_authority_char c = not (c == b'/' || c == b'?' || c == b'#')

unfoldable pub is_path_char : ℕ → Bool
is_path_char c = not (c == b'?' || c == b'#')

unfoldable pub is_query_char : ℕ → Bool
is_query_char c = not (c == b'#')

-- the groups of `URL_REGEX`
pub record UrlDict : Type 0 where
  pub scheme : Option Text
  pub authority : Option Text
  pub path : Text
  pub query : Option Text
  pub fragment : Option Text

-- a prefix of scheme characters, if a colon follows it
take_colon : Text × Text → Text → Option Text × Text
take_colon (a, []) s = (none, s)
take_colon (a, c ∷ b) s = if c == b':' then (some a, b) else (none, s)

-- `(?:(?P<scheme>([a-zA-Z][a-zA-Z0-9+.-]*)?):)?`
match_scheme : Text → Option Text × Text
match_scheme [] = (none, [])
match_scheme (c ∷ s) =
    if is_alpha c
    then take_colon (span is_scheme_char (c ∷ s)) (c ∷ s)
    else take_colon ([], c ∷ s) (c ∷ s)

-- `(?://(?P<authority>[^/?#]*))?`
match_authority : Text → Option Text × Text
match_authority s =
    if starts_with s (codes "//")
    then (let (a, b) = span is_authority_char (drop 2 s) in (some a, b))
    else (none, s)

-- `(?:\?(?P<query>[^#]*))?`
match_query : Text → Option Text × Text
match_query [] = (none, [])
match_query (c ∷ s) =
    if c == b'?' then (let (a, b) = span is_query_char s in (some a, b)) else (none, c ∷ s)

-- `(?:#(?P<fragment>.*))?`
match_fragment : Text → Option Text
match_fragment [] = none
match_fragment (c ∷ s) = if c == b'#' then some s else none

-- `URL_REGEX.match(url).groupdict()`
unfoldable pub match_url : Text → UrlDict
unfolding span is_scheme_char is_path_char is_query_char is_authority_char take_colon match_scheme
    match_authority match_query match_fragment starts_with
match_url url =
    let (scheme, s) = match_scheme url in
    let (authority, t) = match_authority s in
    let (path, u) = span is_path_char t in
    let (query, v) = match_query u in
    record {
      scheme = scheme;
      authority = authority;
      path = path;
      query = query;
      fragment = match_fragment v;
    }

-- `s` before and behind the last character `c` of `s`
split_last : ℕ → Text → Option (Text × Text)
split_last c [] = none
split_last c (d ∷ s) = elim (split_last c s) [
  | some (a, b) ↦ some (d ∷ a, b)
  | none ↦ if d == c then some ([], s) else none
]

-- the groups of `AUTHORITY_REGEX`; the group of the port always takes part
pub record AuthorityDict : Type 0 where
  pub userinfo : Option Text
  pub host : Text
  pub port : Text

-- `(?P<host>(\[.*\]|[^:@]*))` and the rest
bracketed : Option (Text × Text) → Text → Text × Text
bracketed (some (a, b)) s = (a ++ b']' ∷ [], b)
bracketed none s = span (λ c. not (c == b':' || c == b'@')) s

match_host : Text → Text × Text
match_host s =
    if starts_with s (codes "[")
    then bracketed (split_last b']' s) s
    else span (λ c. not (c == b':' || c == b'@')) s

-- `:?(?P<port>.*)?`
match_port : Text → Text
match_port [] = []
match_port (c ∷ s) = if c == b':' then s else c ∷ s

match_userinfo : Option (Text × Text) → Text → Option Text × Text
match_userinfo (some (a, b)) s = (some a, b)
match_userinfo none s = (none, s)

-- `AUTHORITY_REGEX.match(authority).groupdict()`
unfoldable pub match_authority_parts : Text → AuthorityDict
unfolding span split_last bracketed match_host match_port match_userinfo starts_with
match_authority_parts authority =
    let (userinfo, s) = match_userinfo (split_last b'@' authority) authority in
    let (host, t) = match_host s in record { userinfo = userinfo; host = host; port = match_port t }

-- `COMPONENT_REGEX[...].fullmatch(value)`
unfoldable pub fits_scheme : Text → Bool
unfolding is_scheme_char
fits_scheme [] = true
fits_scheme (c ∷ s) = is_alpha c && all is_scheme_char s

-- `^\[.*\]$`
unfoldable pub is_ipv6_style : Text → Bool
unfolding starts_with ends_with
is_ipv6_style s = starts_with s (codes "[") && ends_with (drop 1 s) (codes "]")

unfoldable pub fits_host : Text → Bool
unfolding is_ipv6_style
fits_host s = is_ipv6_style s || not (mem b':' s)

-- `^[0-9]+\.[0-9]+\.[0-9]+\.[0-9]+$`
unfoldable pub is_ipv4_style : Text → Bool
unfolding split
is_ipv4_style s =
    let parts = split b'.' s in
    length parts == 4 && all (λ w. not (is_nil w) && all is_digit w) parts
