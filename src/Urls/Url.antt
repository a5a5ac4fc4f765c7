-- ===== src/Urls/Url.antt =====
-- `URL` of httpxp/_urls.py, a parse result with the properties and methods that the client uses.
pub mod Parts
use httpxp.Prelude.{
  Bool, Text, [], codes, if◌then◌else◌, is_nil, none, some, starts_with, ◌||◌, list_eq,
}
use httpxp.Exceptions.Result.{Result, ok, ◌>>=◌}
use httpxp.UrlParse.Host.{Platform}
use httpxp.UrlParse.Parse
use httpxp.UrlParse.Parse.{to_str, authority, Kwargs, ParseResult, no_kwargs, urlparse}

abbrev pub Url : Type 0
Url = ParseResult

-- What `URL` takes from Python and its packages besides the parser's platform.
pub record UrlPlatform : Type 0 where
  pub platform : Platform
  -- `idna.decode` of a host that begins with "xn--", which may raise
  pub idna_decode : Text → Result Text
  -- `urllib.parse.unquote` and `urllib.parse.urljoin`
  pub unquote : Text → Text
  pub urljoin : Text → Text → Text

module _ (p : UrlPlatform) where
  -- `URL(url)` of a text
  pub parse : Text → Result Url
  parse url = urlparse p.platform url no_kwargs

  unfoldable pub host : Url → Result Text
  host u = if starts_with u.host (codes "xn--") then p.idna_decode u.host else ok u.host

  pub fragment : Url → Text
  fragment u = p.unquote (elim u.fragment [ none ↦ [] | some s ↦ s ])

  -- `copy_with`, whose own components are the defaults of the keyword arguments
  defaults : Url → Kwargs
  defaults u = record no_kwargs {
    scheme = some (some u.scheme);
    authority = some (some (authority u));
    path = some (some u.path);
    query = some u.query;
    fragment = some u.fragment;
  }

  pub copy_with_host : Url → Text → Result Url
  copy_with_host u h = urlparse p.platform [] (record (defaults u) { host = some (some h) })

  pub copy_with_fragment : Url → Text → Result Url
  copy_with_fragment u f = urlparse p.platform [] (record (defaults u) { fragment = some (some f) })

  -- `copy_with(scheme=…)`
  pub copy_with_scheme : Url → Text → Result Url
  copy_with_scheme u s = urlparse p.platform [] (record (defaults u) { scheme = some (some s) })

  -- `copy_with(username=None, password=None)`
  pub without_credentials : Url → Result Url
  without_credentials u =
      urlparse p.platform [] (record (defaults u) { username = some none; password = some none })

  -- `copy_with(raw_path=…)`
  pub copy_with_raw_path : Url → Text → Result Url
  copy_with_raw_path u raw_path =
      urlparse p.platform [] (record (defaults u) { raw_path = some (some raw_path) })

  -- `join` of a URL that is already parsed: the argument is parsed again from its text
  pub join_url : Url → Url → Result Url
  join_url u other = do again ← parse (to_str other); parse (p.urljoin (to_str u) (to_str again))

pub is_relative_url : Url → Bool
is_relative_url u = is_nil u.scheme || is_nil u.host

unfoldable pub netloc : Url → Text
unfolding Parse.netloc
netloc u = Parse.netloc u
