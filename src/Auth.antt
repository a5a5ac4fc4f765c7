-- ===== src/Auth.antt =====
-- httpxp/_auth.py: the flows of the authentication schemes. A flow is the request it sends first and
-- what it answers to the response. The functions of hashlib, base64, netrc and time, and the random
-- bytes, are parameters.
pub mod Parse
pub mod Header
mod Count
mod Tests
use httpxp.Prelude.{
  Bytes, List, Option, Text, [], codes, if◌then◌else◌, is_nil, join, lower, none, not, some,
  starts_with, ℕ, ◌++◌, ◌==◌, ◌∷◌, nat_eq, list_eq,
}
use httpxp.Codec.{encode_utf8}
use httpxp.Exceptions.Result
use httpxp.Exceptions.Result.{Result, ok, err}
use httpxp.Client.Exec.{M, lift, pure, ◌>>=◌, ◌>>◌}
use httpxp.Client.Redirect.{Request}
use httpxp.Models.Headers
use httpxp.Models.Headers.Exec
use httpxp.Models.Headers.Exec.{Headers}
use httpxp.Auth.Parse.{Challenge, parse_challenge}
use httpxp.Auth.Header.{AuthPlatform, DigestAuth, build_auth_header}
use httpxp.Urls.Url
use httpxp.Urls.Url.{UrlPlatform}

-- What a flow reads of a response; `id` is the object.
pub record AuthResponse : Type 0 where
  pub status_code : ℕ
  pub headers : Headers
  pub id : ℕ

pub record FlowPlatform : Type 0 where
  pub auth : AuthPlatform
  pub url : UrlPlatform
  -- `b64encode(…).decode()`
  pub b64encode : Bytes → Text
  -- the name and the password of `authenticators(host)` of the netrc file
  pub authenticators : Text → Option (Text × Option Text)
  -- what the cookies of a response add to a request
  pub set_cookie_header : AuthResponse → Request → Result Request

pub data Auth : Type 0 where
  no_auth : Auth
  function_auth : (Request → Request) → Auth
  -- the header that the constructor builds
  basic_auth : Text → Auth
  netrc_auth : Auth
  digest_auth : DigestAuth → Auth

-- `request.headers["Authorization"] = value`
authorized : Text → Request → Result Request
authorized value request = elim (Headers.set_item (codes "Authorization") value request.headers).0 [
  | err e ↦ err e
  | ok _ ↦ ok (record request {
    headers = (Headers.set_item (codes "Authorization") value request.headers).1;
  })
]

module _ (p : FlowPlatform) where
  -- `_build_auth_header` of `BasicAuth` and `NetRCAuth`
  basic_header : Bytes → Bytes → Text
  basic_header username password =
      codes "Basic " ++ p.b64encode (join (codes ":") (username ∷ password ∷ []))

  pub basic_auth_of : Bytes → Bytes → Auth
  basic_auth_of username password = basic_auth (basic_header username password)

  password_of : Option Text → Text
  password_of none = []
  password_of (some s) = s

  netrc_request : Option (Text × Option Text) → Request → Result Request
  netrc_request none request = ok request
  netrc_request (some (username, password)) request =
      if is_nil (password_of password)
      then ok request
      else authorized (basic_header (encode_utf8 username) (encode_utf8 (password_of password)))
          request

  digest_request : Request → Challenge → M DigestAuth Request
  digest_request request challenge = do
    value ← build_auth_header p.auth request challenge
    lift (authorized value request)

  first_digest : Option Challenge → Request → M DigestAuth Request
  first_digest none request = pure request
  first_digest (some challenge) request = digest_request request challenge

  again : (DigestAuth → Auth) → Result Request × DigestAuth → Result Request × Auth
  again wrap (r, a) = (r, wrap a)

  -- `next(flow)`
  pub first_request : Request → M Auth Request
  first_request request no_auth = (ok request, no_auth)
  first_request request (function_auth func) = (ok (func request), function_auth func)
  first_request request (basic_auth header) = (authorized header request, basic_auth header)
  first_request request netrc_auth = (
    Result.◌>>=◌ (Url.host p.url request.url)
        (λ host. netrc_request (p.authenticators host) request),
    netrc_auth,
  )
  first_request request (digest_auth a) =
      again digest_auth (first_digest a.last_challenge request a)

  -- the loop over the headers of the response
  digest_header : List Text → Option Text
  digest_header [] = none
  digest_header (auth_header ∷ headers) =
      let rest = digest_header headers in
      if starts_with (lower auth_header) (codes "digest ") then some auth_header else rest

  -- the header with a digest challenge, of a response with the status 401
  pub challenge_header : AuthResponse → Result (Option Text)
  challenge_header response =
      if not (response.status_code == 401)
      then ok none
      else (Exec.◌>>=◌ (Headers.contains (codes "www-authenticate"))
          (λ has.
            if has
            then (Exec.◌>>=◌ (Headers.get_list (codes "www-authenticate"))
                (λ headers. Exec.pure (digest_header headers)))
            else Exec.pure none)
          response.headers).0

  challenged : Challenge → M DigestAuth (Unit {0})
  challenged challenge a = (ok tt, record a { last_challenge = some challenge; nonce_count = 1 })

  answer_to : Request → AuthResponse → Option Text → M DigestAuth (Option Request)
  answer_to request response none = pure none
  answer_to request response (some auth_header) = do
    challenge ← lift (parse_challenge auth_header)
    challenged challenge
    signed ← digest_request request challenge
    next ← lift (p.set_cookie_header response signed)
    pure (some next)

  answer_digest : Request → AuthResponse → M DigestAuth (Option Request)
  answer_digest request response = do
    header ← lift (challenge_header response)
    answer_to request response header

  next_again :
      (DigestAuth → Auth) → Result (Option Request) × DigestAuth → Result (Option Request) × Auth
  next_again wrap (r, a) = (r, wrap a)

  -- `flow.send(response)` for the first response; nothing means that the flow ends
  pub next_request : Request → AuthResponse → M Auth (Option Request)
  next_request request response (digest_auth a) =
      next_again digest_auth (answer_digest request response a)
  next_request request response auth = (ok none, auth)
