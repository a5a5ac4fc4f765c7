-- ===== src/Transports/Wsgi/Tests.antt =====
-- Runs of the WSGI bridge, and its theorems at an input.
use httpxp.Urls.Url
use httpxp.Transports.Wsgi.Environ.{
  Holds, IsServerPort, IsFree, environ_of-lookup, last_value, or_lookup,
}
use httpxp.Prelude.{
  List, Text, [], codes, list_beq, none, refl, some, starts_with, true, ◌∷◌, ◌≡◌, nat_eq, list_eq,
}
use httpxp.Codec.{decode, encode}
use httpxp.Dict
use httpxp.Dict.{Dict}
use httpxp.Exceptions.Result.{ok}
use httpxp.Transports.Samples.{url, url_platform}
use httpxp.Transports.Wsgi.{
  EnvironValue, StartResponse, Step, WsgiRequest, WsgiTransport, add_headers, base_environ,
  environ_of, header_key, key_char, server_port, scheme_port, skip_leading_empty_chunks, starts,
  text, yields,
}
use httpxp.Transports.Wsgi.Body.{IsSkipped, skip_leading_empty_chunks-IsSkipped}
use httpxp.UrlParse.Port.{ℤ, pos}
use httpxp.Urls.Url.Parts

abbrev call : StartResponse
call = record { status = codes "200 OK"; response_headers = []; exc_info = none }

-- a generator that calls `start_response` behind an empty chunk
abbrev lazy : List Step
lazy = yields [] ∷ starts call ∷ yields (codes "a") ∷ yields [] ∷ []

skipped : skip_leading_empty_chunks none lazy ≡ ok (some call, yields (codes "a") ∷ yields [] ∷ [])
unfolding skip_leading_empty_chunks
skipped = refl

skip_leading_empty_chunks-IsSkipped_example :
    IsSkipped none lazy (some call, yields (codes "a") ∷ yields [] ∷ [])
skip_leading_empty_chunks-IsSkipped_example =
    skip_leading_empty_chunks-IsSkipped none lazy (some call, yields (codes "a") ∷ yields [] ∷ [])
      skipped

abbrev transport : WsgiTransport
transport = record {
  app = λ _. record { calls = call ∷ []; result = ok lazy };
  raise_app_exceptions = true;
  script_name = [];
  remote_addr = codes "127.0.0.1";
  wsgi_errors = 2;
}

abbrev given : WsgiRequest
given = record {
  method = codes "POST";
  url = url;
  raw_headers = (codes "x-a", codes "1") ∷ (codes "X-A", codes "2") ∷ [];
  body = codes "ab";
}

-- The second header of a name takes the place of the first.
abbrev environ : Dict EnvironValue
environ =
    Dict.put (codes "HTTP_X_A") (text (codes "2"))
      (base_environ url_platform transport given (codes "q=1") (codes "www.a.org") (pos 443))

environ-given : environ_of url_platform transport given ≡ ok environ
unfolding environ_of server_port scheme_port Parts.query Url.host starts_with decode encode
    add_headers header_key key_char Dict.put base_environ list_beq
environ-given = refl

environ_of-lookup_example :
    (query : Text) × (host : Text) × (port : ℤ) × (Parts.query given.url ≡ ok query)
    × (Url.host url_platform given.url ≡ ok host)
    × IsServerPort given.url.port given.url.scheme port
    × Holds given query host port environ
    × ((k : Text)
        → (Dict.lookup k environ
            ≡ or_lookup
                (last_value k given.raw_headers)
                k
                (base_environ url_platform transport given query host port))
          × (IsFree k
              → Dict.lookup k environ
                ≡ Dict.lookup k (base_environ url_platform transport given query host port)))
environ_of-lookup_example = environ_of-lookup url_platform transport given environ environ-given
