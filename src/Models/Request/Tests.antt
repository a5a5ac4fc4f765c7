-- ===== src/Models/Request/Tests.antt =====
-- A request with a body, whose caller gives a header.
use httpxp.Prelude.{
  Text, [], arith, codes, list_beq, lower, lower_char, none, refl, starts_with, ◌∷◌, ◌≡◌, nat_eq,
  list_eq,
}
use httpxp.Dict.{Dict}
use httpxp.Exceptions.Result.{ok}
use httpxp.Models.Headers.Exec.{Headers}
use httpxp.Models.Request.{prepare}
use httpxp.Models.Request.Prepared.{IsPrepared, prepare-IsPrepared}
use httpxp.Transports.Samples.{url_platform, url}
use httpxp.Urls.Url

abbrev defaults : Dict Text
defaults = (codes "Content-Length", codes "3") ∷ (codes "Content-Type", codes "text/plain") ∷ []

abbrev given : Headers
given = record {
  entries = record { raw = codes "Accept"; key = codes "accept"; value = codes "*/*" } ∷ [];
  encoding = none;
}

prepare-IsPrepared_example :
    (h : Headers) × (prepare url_platform (codes "POST") url defaults given ≡ (ok tt, h))
    × IsPrepared (codes "POST") (codes "www.a.org") given.entries h.entries
unfolding lower lower_char Url.netloc Url.host starts_with list_beq
prepare-IsPrepared_example =
    prepare-IsPrepared url_platform (codes "POST") url (codes "www.a.org") defaults given
      ((refl, omega arith, omega arith), tt) (omega arith) (omega arith) refl
