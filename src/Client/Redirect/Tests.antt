-- ===== src/Client/Redirect/Tests.antt =====
-- The theorems on redirects at an input.
use httpxp.Prelude.{Text, [], codes, none, true, ◌∷◌, nat_eq, list_eq}
use httpxp.Exceptions.Result.{ok}
use httpxp.Urls.Url
use httpxp.Urls.Url.{Url, UrlPlatform}
use httpxp.Models.Headers.Exec.{Headers}

abbrev url_platform : UrlPlatform
url_platform = record {
  platform = record {
    is_ipv4_address = λ _. true;
    is_ipv6_address = λ _. true;
    idna_encode = λ _. none;
    int_of = λ _. none;
  };
  idna_decode = λ s. ok s;
  unquote = λ s. s;
  urljoin = λ _ s. s;
}

abbrev url_of : Text → Url
url_of host = record {
  scheme = codes "https";
  userinfo = [];
  host = host;
  port = none;
  path = codes "/";
  query = none;
  fragment = none;
}

abbrev held : Headers
held = record {
  entries =
      record { raw = codes "Authorization"; key = codes "authorization"; value = codes "secret" }
      ∷ [];
  encoding = none;
}

abbrev a : Url
a = url_of (codes "a.org")

abbrev b : Url
b = url_of (codes "b.org")
