-- ===== src/Transports/Samples.antt =====
-- The URL and the parameters of the tests.
use httpxp.Exceptions.Result.{ok}
use httpxp.Prelude.{[], codes, none, some, true, list_eq}
use httpxp.Urls.Url.{Url, UrlPlatform}

abbrev pub url_platform : UrlPlatform
url_platform = record {
  platform = record {
    is_ipv4_address = λ _. true;
    is_ipv6_address = λ _. true;
    idna_encode = λ _. none;
    int_of = λ _. none;
  };
  idna_decode = λ s. ok s;
  unquote = λ s. s;
  urljoin = λ _ s. s;
}

abbrev pub url : Url
url = record {
  scheme = codes "https";
  userinfo = [];
  host = codes "www.a.org";
  port = none;
  path = codes "/x";
  query = some (codes "q=1");
  fragment = none;
}
