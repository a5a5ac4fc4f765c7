-- ===== src/Transports/Asgi.antt =====
-- `ASGITransport` of httpxp/_transports/asgi.py. An application is the tree of its calls of `receive`
-- and `send`, in the order in which its task makes them; what follows a call depends on what the call
-- returns or raises. One that waits for ever has no outcome.
mod Log
mod Tracking
mod Answer
mod Requested
mod Tests
use httpxp.Prelude.{
  Bool, Bytes, List, Option, Text, [], codes, concat, false, if◌then◌else◌, is_nil, lower, map,
  none, not, partition, some, true, ℕ, ◌&&◌, ◌++◌, ◌==◌, ◌||◌, ◌∷◌, nat_eq, list_eq,
}
use httpxp.Exceptions.{Exception, base_exception, key_error, assertion_error}
use httpxp.Exceptions.Result.{Result, ok, err, ◌>>=◌, ◌>>◌, ensure}
use httpxp.UrlParse.Port.{ℤ}
use httpxp.Urls.Url
use httpxp.Urls.Url.{Url, UrlPlatform}
use httpxp.Urls.Url.Parts

abbrev pub RawHeaders : Type 0
RawHeaders = List (Bytes × Bytes)

-- the entries that depend on the request or on the transport
pub record Scope : Type 0 where
  pub method : Text
  pub headers : RawHeaders
  pub scheme : Text
  pub path : Text
  pub raw_path : Bytes
  pub query_string : Bytes
  pub server : Text × Option ℤ
  pub client : Text × ℕ
  pub root_path : Text

-- what `receive` returns: "http.request" with `body` and `more_body`, or "http.disconnect"
pub data Received : Type 0 where
  request : Bytes → Bool → Received
  disconnect : Received

-- what `send` is given: "http.response.start" with `status` and `headers`, "http.response.body" with
-- `body` and `more_body`, another type, or none; a key may be missing
pub data Message : Type 0 where
  response_start : Option ℕ → Option RawHeaders → Message
  response_body : Option Bytes → Option Bool → Message
  other_type : Message
  untyped : Message

pub data Task : Type 0 where
  receiving : (Result Received → Task) → Task
  sending : Message → (Result (Unit {0}) → Task) → Task
  finished : Task
  raising : Exception → Task

-- The request: the parts of its stream, an asynchronous generator, and what the stream ends with.
pub record AsgiRequest : Type 0 where
  pub method : Text
  pub url : Url
  pub raw_headers : RawHeaders
  pub is_async : Bool
  pub parts : List Bytes
  pub ending : Result (Unit {0})

pub record AsgiTransport : Type 0 where
  pub app : Scope → Task
  pub raise_app_exceptions : Bool
  pub root_path : Text
  pub client : Text × ℕ

-- the arguments of the response
pub record AsgiResponse : Type 0 where
  pub status_code : ℕ
  pub headers : RawHeaders
  pub body : Bytes

-- the variables of `handle_async_request`, with what is left of the request's stream
pub record Exchange : Type 0 where
  pub parts : List Bytes
  pub ending : Result (Unit {0})
  pub request_complete : Bool
  pub status_code : Option ℕ
  pub response_headers : Option RawHeaders
  pub body_parts : List Bytes
  pub response_started : Bool
  pub response_complete : Bool

-- `d.get(key, default)`
pub or_default : {A : Type 0} → A → Option A → A
or_default a none = a
or_default a (some b) = b

pub scope_of : UrlPlatform → AsgiTransport → AsgiRequest → Result Scope
scope_of p t r = do
  raw_path ← Parts.raw_path r.url
  query_string ← Parts.query r.url
  host ← Url.host p r.url
  ok (record {
    method = r.method;
    headers = map (λ h. (lower h.0, h.1)) r.raw_headers;
    scheme = r.url.scheme;
    path = Parts.path p r.url;
    raw_path = (partition b'?' raw_path).0;
    query_string = query_string;
    server = (host, r.url.port);
    client = t.client;
    root_path = t.root_path;
  })

pub begin : AsgiRequest → Exchange
begin r = record {
  parts = r.parts;
  ending = r.ending;
  request_complete = false;
  status_code = none;
  response_headers = none;
  body_parts = [];
  response_started = false;
  response_complete = false;
}

-- the end of the request's stream
stream_ended : Result (Unit {0}) → Exchange → Result Received × Exchange
stream_ended (ok _) x = (ok (request [] false), record x { request_complete = true })
stream_ended (err e) x = (err e, record x { ending = ok tt })

pub next_chunk : List Bytes → Exchange → Result Received × Exchange
next_chunk [] x = stream_ended x.ending x
next_chunk (body ∷ parts) x = (ok (request body true), record x { parts = parts })

-- `receive`; nothing, where it waits for an event that its task does not set
pub receive : Exchange → Option (Result Received × Exchange)
receive x =
    if x.request_complete
    then (if x.response_complete then some (ok disconnect, x) else none)
    else some (next_chunk x.parts x)

start : Option ℕ → Option RawHeaders → Exchange → Result (Unit {0}) × Exchange
start none headers x = (err key_error, x)
start (some status) headers x = (
  ok tt,
  record x {
    status_code = some status;
    response_headers = some (or_default [] headers);
    response_started = true;
  },
)

add_body : Bool → Bytes → Bool → Exchange → Exchange
add_body is_head body more_body x = record x {
  body_parts = if not (is_nil body) && not is_head then x.body_parts ++ body ∷ [] else x.body_parts;
  response_complete = not more_body || x.response_complete;
}

pub send : Bool → Message → Exchange → Result (Unit {0}) × Exchange
send is_head (response_start status headers) x =
    if x.response_started then (err assertion_error, x) else start status headers x
send is_head (response_body body more_body) x =
    if x.response_complete
    then (err assertion_error, x)
    else (ok tt, add_body is_head (or_default [] body) (or_default false more_body) x)
send is_head other_type x = (ok tt, x)
send is_head untyped x = (err key_error, x)

-- `await self.app(scope, receive, send)`
pub run : Bool → Task → Exchange → Option (Result (Unit {0})) × Exchange
run is_head (receiving k) x = elim (receive x) [
  | none ↦ (none, x)
  | some (r, y) ↦ run is_head (k r) y
]
run is_head (sending m k) x = run is_head (k (send is_head m x).0) (send is_head m x).1
run is_head finished x = (some (ok tt), x)
run is_head (raising e) x = (some (err e), x)

-- `isinstance(e, Exception)`
pub is_exception : Exception → Bool
is_exception base_exception = false
is_exception _ = true

give_up : Exchange → Exchange
give_up x = record x {
  response_complete = true;
  status_code = some (or_default 500 x.status_code);
  response_headers = some (or_default [] x.response_headers);
}

-- the `except` block
handled : Bool → Result (Unit {0}) → Exchange → Result (Unit {0}) × Exchange
handled raises (ok _) x = (ok tt, x)
handled raises (err e) x = if raises || not (is_exception e) then (err e, x) else (ok tt, give_up x)

is_not_none : {A : Type 0} → Option A → Bool
is_not_none none = false
is_not_none (some _) = true

-- the assertions and the response
conclude : Result (Unit {0}) × Exchange → Result AsgiResponse
conclude (r, x) = do
  r
  ensure x.response_complete assertion_error
  ensure (is_not_none x.status_code) assertion_error
  ensure (is_not_none x.response_headers) assertion_error
  ok (record {
    status_code = or_default 0 x.status_code;
    headers = or_default [] x.response_headers;
    body = concat x.body_parts;
  })

pub ended : Bool → Option (Result (Unit {0})) × Exchange → Option (Result AsgiResponse)
ended raises (none, x) = none
ended raises (some r, x) = some (conclude (handled raises r x))

pub respond :
    UrlPlatform → AsgiTransport → AsgiRequest → Result Scope → Option (Result AsgiResponse)
respond p t r (err e) = some (err e)
respond p t r (ok scope) =
    ended t.raise_app_exceptions (run (r.method == codes "HEAD") (t.app scope) (begin r))

pub handle_async_request : UrlPlatform → AsgiTransport → AsgiRequest → Option (Result AsgiResponse)
handle_async_request p t r =
    if not r.is_async then some (err assertion_error) else respond p t r (scope_of p t r)
