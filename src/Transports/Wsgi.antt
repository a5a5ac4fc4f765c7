-- ===== src/Transports/Wsgi.antt =====
-- `WSGITransport` of httpxp/_transports/wsgi.py. An application gets its environment and makes calls of
-- `start_response`, before it returns or while its result is iterated.
mod Environ
mod Body
mod Tests
use httpxp.Prelude.{
  Bool, Bytes, List, Option, Text, [], codes, false, if◌then◌else◌, is_nil, is_space, leb, lstrip,
  map, none, some, suc, true, zero, ℕ, ◌&&◌, ◌++◌, ◌-◌, ◌==◌, ◌||◌, ◌∷◌, nat_eq, list_eq,
}
use httpxp.Codec.{ascii, decode, encode}
use httpxp.Dict
use httpxp.Dict.{Dict}
use httpxp.Exceptions.{Exception, assertion_error, index_error, key_error, value_error}
use httpxp.Exceptions.Result.{Result, ok, err, ◌>>=◌, ◌>>◌}
use httpxp.UrlParse.Port.{ℤ, pos, negsuc, int_to_str}
use httpxp.Urls.Url
use httpxp.Urls.Url.{Url, UrlPlatform}
use httpxp.Urls.Url.Parts

-- the values of the environment; the error stream stands as a number
pub data EnvironValue : Type 0 where
  version : ℕ → ℕ → EnvironValue
  text : Text → EnvironValue
  flag : Bool → EnvironValue
  input : Bytes → EnvironValue
  errors : ℕ → EnvironValue

-- `start_response(status, response_headers, exc_info)`
pub record StartResponse : Type 0 where
  pub status : Text
  pub response_headers : List (Text × Text)
  pub exc_info : Option Exception

-- what the iteration of a result comes to
pub data Step : Type 0 where
  yields : Bytes → Step
  starts : StartResponse → Step
  raises : Exception → Step

-- a run of the application: its calls, and its result or its exception
pub record Run : Type 0 where
  pub calls : List StartResponse
  pub result : Result (List Step)

pub record WsgiTransport : Type 0 where
  pub app : Dict EnvironValue → Run
  pub raise_app_exceptions : Bool
  pub script_name : Text
  pub remote_addr : Text
  pub wsgi_errors : ℕ

-- the request, whose body is read
pub record WsgiRequest : Type 0 where
  pub method : Text
  pub url : Url
  pub raw_headers : List (Bytes × Bytes)
  pub body : Bytes

-- `request.url.port or {"http": 80, "https": 443}[request.url.scheme]`
scheme_port : Text → Result ℤ
scheme_port scheme =
    if scheme == codes "http"
    then ok (pos 80)
    else if scheme == codes "https"
    then ok (pos 443)
    else err key_error

pub server_port : Option ℤ → Text → Result ℤ
server_port (some (pos (suc n))) scheme = ok (pos (suc n))
server_port (some (negsuc n)) scheme = ok (negsuc n)
server_port (some (pos zero)) scheme = scheme_port scheme
server_port none scheme = scheme_port scheme

-- `upper()` of ASCII and `replace("-", "_")`, of a character
pub key_char : ℕ → ℕ
key_char c = if leb b'a' c && leb c b'z' then c - 32 else if c == b'-' then b'_' else c

pub header_key : Text → Text
header_key name =
    let key = map key_char name in
    if key == codes "CONTENT_TYPE" || key == codes "CONTENT_LENGTH"
    then key
    else codes "HTTP_" ++ key

pub add_headers : List (Bytes × Bytes) → Dict EnvironValue → Result (Dict EnvironValue)
add_headers [] environ = ok environ
add_headers ((name, value) ∷ headers) environ = do
  key ← decode ascii name
  content ← decode ascii value
  add_headers headers (Dict.put (header_key key) (text content) environ)

module _ (p : UrlPlatform) (t : WsgiTransport) where
  pub base_environ : WsgiRequest → Text → Text → ℤ → Dict EnvironValue
  base_environ r query host port =
      (codes "wsgi.version", version 1 0)
      ∷ (codes "wsgi.url_scheme", text r.url.scheme)
      ∷ (codes "wsgi.input", input r.body)
      ∷ (codes "wsgi.errors", errors t.wsgi_errors)
      ∷ (codes "wsgi.multithread", flag true)
      ∷ (codes "wsgi.multiprocess", flag false)
      ∷ (codes "wsgi.run_once", flag false)
      ∷ (codes "REQUEST_METHOD", text r.method)
      ∷ (codes "SCRIPT_NAME", text t.script_name)
      ∷ (codes "PATH_INFO", text (Parts.path p r.url))
      ∷ (codes "QUERY_STRING", text query)
      ∷ (codes "SERVER_NAME", text host)
      ∷ (codes "SERVER_PORT", text (int_to_str port))
      ∷ (codes "SERVER_PROTOCOL", text (codes "HTTP/1.1"))
      ∷ (codes "REMOTE_ADDR", text t.remote_addr)
      ∷ []

  pub environ_of : WsgiRequest → Result (Dict EnvironValue)
  environ_of r = do
    port ← server_port r.url.port r.url.scheme
    raw ← Parts.query r.url
    query ← decode ascii raw
    host ← Url.host p r.url
    add_headers r.raw_headers (base_environ r query host port)

-- the last call of `start_response`
pub last_call : Option StartResponse → List StartResponse → Option StartResponse
last_call seen [] = seen
last_call seen (c ∷ calls) = last_call (some c) calls

-- `_skip_leading_empty_chunks`: the call that is seen last, and what is left of the iteration
pub skip_leading_empty_chunks :
    Option StartResponse → List Step → Result (Option StartResponse × List Step)
skip_leading_empty_chunks seen [] = ok (seen, [])
skip_leading_empty_chunks seen (yields [] ∷ steps) = skip_leading_empty_chunks seen steps
skip_leading_empty_chunks seen (yields (c ∷ chunk) ∷ steps) = ok (seen, yields (c ∷ chunk) ∷ steps)
skip_leading_empty_chunks seen (starts call ∷ steps) = skip_leading_empty_chunks (some call) steps
skip_leading_empty_chunks seen (raises e ∷ steps) = err e

-- the arguments of the response
pub record WsgiResponse : Type 0 where
  pub status_code : ℤ
  pub headers : List (Bytes × Bytes)
  pub stream : List Step

encode_headers : List (Text × Text) → Result (List (Bytes × Bytes))
encode_headers [] = ok []
encode_headers ((key, value) ∷ headers) = do
  k ← encode ascii key
  v ← encode ascii value
  rest ← encode_headers headers
  ok ((k, v) ∷ rest)

before_space : Text → Text
before_space [] = []
before_space (c ∷ s) = let rest = before_space s in if is_space c then [] else c ∷ rest

-- `status.split()[0]`
first_word : Text → Result Text
first_word status =
    let word = before_space (lstrip is_space status) in
    if is_nil word then err index_error else ok word

int_or_raise : Option ℤ → Result ℤ
int_or_raise none = err value_error
int_or_raise (some n) = ok n

of_exc_info : Bool → Option Exception → Result (Unit {0})
of_exc_info raised none = ok tt
of_exc_info raised (some e) = if raised then err e else ok tt

-- the assertions on `seen_status` and `seen_response_headers`
seen_call : Option StartResponse → Result StartResponse
seen_call none = err assertion_error
seen_call (some c) = ok c

module _ (p : UrlPlatform) (t : WsgiTransport) where
  response_of : List Step → StartResponse → Result WsgiResponse
  response_of stream call = do
    of_exc_info t.raise_app_exceptions call.exc_info
    word ← first_word call.status
    status ← int_or_raise (p.platform.int_of word)
    headers ← encode_headers call.response_headers
    ok (record { status_code = status; headers = headers; stream = stream })

  respond : Run → Result WsgiResponse
  respond run = do
    steps ← run.result
    left ← skip_leading_empty_chunks (last_call none run.calls) steps
    call ← seen_call left.0
    response_of left.1 call

  pub handle_request : WsgiRequest → Result WsgiResponse
  handle_request r = do environ ← environ_of p t r; respond (t.app environ)
