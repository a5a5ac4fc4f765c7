-- ===== src/WebSocket/Connect.antt =====
-- `_prepare`, `connect` and `websocket` of httpxp/_websocket.py: how a client opens a connection, and
-- what it does with it when a hook or the cookies raise.
mod Released
mod Tests
use httpxp.Prelude.{
  Bool, List, Option, Text, [], codes, if◌then◌else◌, none, some, ℕ, ◌==◌, ◌||◌, ◌∷◌, nat_eq,
  list_eq,
}
use httpxp.Exceptions.{runtime_error, type_error}
use httpxp.Exceptions.Result
use httpxp.Exceptions.Result.{ensure, Result, ok, err}
use httpxp.Client.Authenticated.{ClientState, closed, opened, unopened}
use httpxp.Client.Exec.{raise_behind, keep_result, M, lift, pure, ◌>>=◌, ◌>>◌}
use httpxp.Dict
use httpxp.Dict.{Dict}
use httpxp.Transports.Http.{OptionValue, or_empty, seconds, timeout_of}
use httpxp.Urls.Url
use httpxp.Urls.Url.{Url, UrlPlatform}

-- The request, with what `_prepare` reads of its extensions; the rest is only handed on.
pub record WsRequest : Type 0 where
  pub url : Url
  pub private_options : Option (Dict OptionValue)
  pub timeout : Option (Dict (Option ℕ))
  pub id : ℕ

-- What the code calls: `client.build_request` and the flow of the authentication, the hooks, whether the
-- transport for a URL is an `HTTPTransport`, the native side, the constructor of the response and
-- the cookie store. `N` are the native sockets and `R` the responses.
pub record Opening (W N R : Type 0) : Type 0 where
  pub url_platform : UrlPlatform
  pub build_request : Url → M W WsRequest
  pub build_flow : WsRequest → M W (Unit {0})
  pub first_request : WsRequest → M W WsRequest
  pub close_flow : M W (Unit {0})
  pub request_hooks : List (WsRequest → M W (Unit {0}))
  pub is_http : Url → Bool
  pub websocket : WsRequest → Dict OptionValue → M W N
  pub response_of : N → WsRequest → Result R
  pub extract_cookies : R → M W (Unit {0})
  pub response_hooks : List (R → M W (Unit {0}))
  pub close_socket : N → M W (Unit {0})

config_of : WsRequest → Dict OptionValue → Dict OptionValue
config_of request options =
    let timeout = or_empty request.timeout in
    let config =
      Dict.set_default (codes "_pool_timeout") (seconds (timeout_of (codes "pool") timeout))
        (Dict.update (or_empty request.private_options) options) in
    elim (timeout_of (codes "read") timeout) [
      | none ↦ config
      | some t ↦ Dict.set_default (codes "read_timeout") (seconds (some t)) config
    ]

is_websocket : Text → Bool
is_websocket scheme = scheme == codes "ws" || scheme == codes "wss"

pub run_each : {W A : Type 0} → List (A → M W (Unit {0})) → A → M W (Unit {0})
run_each [] a = pure tt
run_each (hook ∷ hooks) a = do hook a; run_each hooks a

module _ {W N R : Type 0} (p : Opening W N R) where
  http_url : Url → Result Url
  http_url u =
      if is_websocket u.scheme
      then Url.copy_with_scheme p.url_platform u
          (if u.scheme == codes "wss" then codes "https" else codes "http")
      else ok u

  -- `URL(url)`, with the scheme of HTTP
  parsed_url : Text → Result Url
  parsed_url url = Result.◌>>=◌ (Url.parse p.url_platform url) http_url

  built : Dict OptionValue → Url → M W (WsRequest × Dict OptionValue)
  built options u = do request ← p.build_request u; pure (request, config_of request options)

  prepared : Text → Dict OptionValue → M W (WsRequest × Dict OptionValue)
  prepared url options = do u ← lift (parsed_url url); built options u

  opened_by :
      Result (WsRequest × Dict OptionValue) × W
      → Result (WsRequest × Dict OptionValue) × (ClientState × W)
  opened_by (r, w) = (r, (opened, w))

  -- `_prepare`, for a URL that is given as text
  pub prepare : Text → Dict OptionValue → M (ClientState × W) (WsRequest × Dict OptionValue)
  prepare url options (closed, w) = (err runtime_error, (closed, w))
  prepare url options (opened, w) = opened_by (prepared url options w)
  prepare url options (unopened, w) = opened_by (prepared url options w)

  -- `except BaseException: socket.close(); raise`
  pub closing_socket : N → Result (N × R) × W → Result (N × R) × W
  closing_socket n (ok s, w) = (ok s, w)
  closing_socket n (err e, w) = raise_behind e (p.close_socket n w)

  -- the inner `try` block
  pub announce : N → R → M W (N × R)
  announce n r w =
      closing_socket n ((do p.extract_cookies r; run_each p.response_hooks r; pure (n, r)) w)

  with_response : WsRequest → N → M W (N × R)
  with_response request n = do r ← lift (p.response_of n request); announce n r

  -- the outer `try` block
  pub open_socket : WsRequest → Dict OptionValue → M W (N × R)
  open_socket request config = do
    next ← p.first_request request
    run_each p.request_hooks next
    lift (ensure (p.is_http next.url) type_error)
    n ← p.websocket next config
    with_response next n

  closing_flow : Result (N × R) × W → Result (N × R) × W
  closing_flow (r, w) = keep_result r (p.close_flow w)

  -- `connect` behind `_prepare`
  pub connect_prepared : WsRequest × Dict OptionValue → M W (N × R)
  connect_prepared (request, config) = do
    p.build_flow request
    λ w. closing_flow (open_socket request config w)

  in_state : ClientState → Result (N × R) × W → Result (N × R) × (ClientState × W)
  in_state state (r, w) = (r, (state, w))

  then_connect :
      Result (WsRequest × Dict OptionValue) × (ClientState × W) → Result (N × R) × (ClientState × W)
  then_connect (err e, (state, w)) = (err e, (state, w))
  then_connect (ok a, (state, w)) = in_state state (connect_prepared a w)

  pub connect : Text → Dict OptionValue → M (ClientState × W) (N × R)
  connect url options s = then_connect (prepare url options s)

  -- `websocket`: the client is new, and is closed if the connection is not opened; it is the owner of
  -- the socket, which is returned with the state of the client.
  owned : (W → Result (Unit {0}) × W) → Result (N × R) × (ClientState × W) → Result (N × R) × W
  owned close_client (ok s, (state, w)) = (ok s, w)
  owned close_client (err e, (state, w)) = raise_behind e (close_client w)

  pub websocket : M W (Unit {0}) → M W (Unit {0}) → Text → Dict OptionValue → M W (N × R)
  websocket new_client close_client url options = do
    new_client
    λ w. owned close_client (connect url options (unopened, w))
