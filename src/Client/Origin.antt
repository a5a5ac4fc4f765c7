-- ===== src/Client/Origin.antt =====
-- `_port_or_default`, `_same_origin` and `_is_https_redirect` of httpxp/_client.py.
pub mod Same
use httpxp.Prelude.{
  Bool, Option, codes, false, if◌then◌else◌, none, not, some, ◌&&◌, ◌==◌, nat_eq, list_eq,
}
use httpxp.Exceptions.Result.{Result, ok, ◌>>=◌}
use httpxp.UrlParse.Port.{ℤ, pos, port_eq}
use httpxp.Urls.Url.{Url, UrlPlatform, host}

pub port_or_default : Url → Option ℤ
port_or_default u = elim u.port [
  | some p ↦ some p
  | none ↦
      if u.scheme == codes "http"
      then some (pos 80)
      else if u.scheme == codes "https"
      then some (pos 443)
      else none
]

module _ (p : UrlPlatform) where
  pub same_origin : Url → Url → Result Bool
  same_origin url other = if not (url.scheme == other.scheme) then ok false else do
    url_host ← host p url
    other_host ← host p other
    ok (url_host == other_host && port_eq (port_or_default url) (port_or_default other))

  pub is_https_redirect : Url → Url → Result Bool
  is_https_redirect url location = do
    url_host ← host p url
    location_host ← host p location
    ok (
        if not (url_host == location_host)
        then false
        else url.scheme == codes "http"
          && port_eq (port_or_default url) (some (pos 80))
          && location.scheme == codes "https"
          && port_eq (port_or_default location) (some (pos 443)))
