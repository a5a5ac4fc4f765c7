-- ===== src/Transports/Asgi/Tests.antt =====
-- Runs of the ASGI bridge at given inputs.
use httpxp.Transports.Asgi.Log.{accepted}
use httpxp.Codec.{encode}
use httpxp.Prelude.{
  Bool, [], codes, false, list_beq, lower, none, partition, refl, some, starts_with, true, ◌==◌,
  ◌∷◌, ◌≡◌, nat_eq, list_eq,
}
use httpxp.Exceptions.{runtime_error}
use httpxp.Exceptions.Result.{Result, ok}
use httpxp.Urls.Url
use httpxp.Urls.Url.{Url}
use httpxp.Urls.Url.Parts
use httpxp.Transports.Samples.{url, url_platform}
use httpxp.Transports.Asgi.{
  AsgiRequest, AsgiResponse, AsgiTransport, RawHeaders, Scope, Task, begin, ended, finished,
  handle_async_request, raising, receiving, respond, response_body, response_start, run, scope_of,
  sending, receive, next_chunk, stream_ended, send, start, add_body, or_default, handled,
  is_exception, give_up, conclude, is_not_none,
}
use httpxp.Transports.Asgi.Requested.{answers, reads}
use httpxp.Transports.Asgi.Answer.{IsAnswered, handle_async_request-IsAnswered}

abbrev headers : RawHeaders
headers = (codes "a", codes "b") ∷ []

-- an application that answers with the request's body, twice
abbrev echo : Task
echo = reads 5 (λ body. answers 200 headers (body ∷ body ∷ [])) []

-- one that raises behind its start and a part
abbrev failing : Task
failing =
    sending (response_start (some 201) none)
      λ _. sending (response_body (some (codes "x")) (some true)) λ _. raising runtime_error

abbrev transport : Task → Bool → AsgiTransport
transport t raises = record {
  app = λ _. t;
  raise_app_exceptions = raises;
  root_path = [];
  client = (codes "127.0.0.1", 123);
}

abbrev given : AsgiRequest
given = record {
  method = codes "POST";
  url = url;
  raw_headers = (codes "Host", codes "www.a.org") ∷ [];
  is_async = true;
  parts = codes "ab" ∷ codes "c" ∷ [];
  ending = ok tt;
}

abbrev scope : Scope
scope = record {
  method = codes "POST";
  headers = (codes "host", codes "www.a.org") ∷ [];
  scheme = codes "https";
  path = codes "/x";
  raw_path = codes "/x";
  query_string = codes "q=1";
  server = (codes "www.a.org", none);
  client = (codes "127.0.0.1", 123);
  root_path = [];
}

scope-given :
    (t : Task) (raises : Bool) → scope_of url_platform (transport t raises) given ≡ ok scope
unfolding scope_of lower Parts.raw_path Parts.query Parts.path Url.host encode partition starts_with
scope-given t raises = refl

abbrev partial : AsgiResponse
partial = record { status_code = 201; headers = []; body = codes "x" }

-- An application that raises behind a part has its part returned where exceptions are not raised.
failed : handle_async_request url_platform (transport failing false) given ≡ some (ok partial)
unfolding handle_async_request respond begin run send start add_body or_default ended handled
    is_exception give_up conclude is_not_none list_beq
failed = rw (scope-given failing false) refl

abbrev greedy_task : Task
greedy_task = receiving λ _. receiving λ _. receiving λ _. receiving λ _. finished

-- An application that asks for more behind the end of its request waits for ever.
greedy : handle_async_request url_platform (transport greedy_task true) given ≡ none
unfolding handle_async_request respond begin run ended receive next_chunk stream_ended
greedy = rw (scope-given greedy_task true) refl

handle_async_request-IsAnswered_example :
    (outcome : Result (Unit {0})) × ((run (given.method == codes "HEAD") failing (begin given)).0
      ≡ some outcome)
    × IsAnswered
        (given.method == codes "HEAD")
        outcome
        (accepted (given.method == codes "HEAD") failing (begin given))
        partial
handle_async_request-IsAnswered_example =
    handle_async_request-IsAnswered url_platform (transport failing false) given scope partial
      (scope-given failing false) failed
