-- ===== src/Proxies/Tests.antt =====
-- A run on the mounts of a client, and the theorems on proxies at an input.
use httpxp.Exceptions.Result.{ok}
use httpxp.Proxies.Matching.{Means, host_fits-Means}
use httpxp.Proxies.Order.{IsChosen, first_match-IsChosen}
use httpxp.Prelude.{
  Bool, List, Option, [], codes, list_beq, none, refl, some, starts_with, true, ◌∷◌, ◌≡◌, nat_eq,
  list_eq,
}
use httpxp.Urls.Url
use httpxp.Urls.Url.{Url, UrlPlatform}
use httpxp.Proxies.{
  Mount, UrlPattern, below, first_match, sorted, host_matches, transport_for_url, insert_mount, lt,
  priority_lt, priority, matches, host_fits, regex_fits, pattern_of, port_fits, or_default, mounted,
  is_below, port_priority,
}

abbrev url_platform : UrlPlatform
url_platform = record {
  platform = record {
    is_ipv4_address = λ _. true;
    is_ipv6_address = λ _. true;
    idna_encode = λ _. none;
    int_of = λ _. none;
  };
  idna_decode = λ s. ok s;
  unquote = λ s. s;
  urljoin = λ _ s. s;
}

abbrev url : Url
url = record {
  scheme = codes "https";
  userinfo = [];
  host = codes "www.a.org";
  port = none;
  path = codes "/";
  query = none;
  fragment = none;
}

abbrev everywhere : UrlPattern
everywhere = record {
  pattern = codes "all://";
  scheme = [];
  host = [];
  port = none;
  host_regex = none;
}

abbrev below_a : UrlPattern
below_a = record {
  pattern = codes "all://*.a.org";
  scheme = [];
  host = codes "*.a.org";
  port = none;
  host_regex = some (below (codes "a.org"));
}

abbrev mounts : List Mount
mounts =
    record { pattern = everywhere; transport = some 1 }
    ∷ record { pattern = below_a; transport = some 2 }
    ∷ []

run : transport_for_url url_platform 0 (sorted mounts) url ≡ ok 2
unfolding transport_for_url first_match sorted insert_mount lt priority_lt priority matches
    host_fits regex_fits port_fits or_default mounted host_matches is_below port_priority Url.host
    starts_with list_beq
run = refl

host_fits-Means_example :
    (b : Bool) × (host_fits url_platform
        (pattern_of url_platform (codes "all://*a.org") url (codes "*a.org"))
        url
      ≡ ok b)
    × Means b (codes "*a.org") (codes "www.a.org")
unfolding Url.host starts_with list_beq
host_fits-Means_example =
    host_fits-Means url_platform (codes "all://*a.org") url url (codes "www.a.org") refl
      (codes "*a.org")

url_host : Url.host url_platform url ≡ ok (codes "www.a.org")
unfolding Url.host starts_with list_beq
url_host = refl

first_match-IsChosen_example :
    (o : Option Mount) × (first_match url_platform (sorted mounts) url ≡ ok o)
    × IsChosen url_platform url (codes "www.a.org") url_host mounts o
first_match-IsChosen_example =
    first_match-IsChosen url_platform url (codes "www.a.org") url_host mounts
