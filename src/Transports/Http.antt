-- ===== src/Transports/Http.antt =====
-- `HTTPTransport` of httpxp/_transports/default.py: the options and the body of a request, and
-- the loop over the attempts. The native client is a parameter.
mod Attempts
mod Tests
use httpxp.Prelude.{
  Bool, Bytes, Option, Text, [], codes, false, if◌then◌else◌, ltb, none, not, some, suc, true, zero,
  ℕ, ◌+◌, ◌-◌, ◌==◌, ◌^◌, ◌||◌, ◌∷◌, nat_eq, list_eq,
}
use httpxp.Exceptions.{
  Exception, assertion_error, connect_error, connect_timeout, request_not_read,
  unsupported_protocol, value_error,
}
use httpxp.Exceptions.Result.{Result, ok, err, ◌>>=◌, ◌>>◌, ensure}
use httpxp.Client.Exec.{M}
use httpxp.Dict
use httpxp.Dict.{Dict}
use httpxp.UrlParse.Port.{ℤ, pos, negsuc}
use httpxp.Urls.Url.{Url}

-- a number of seconds or `None`, or another value
pub data OptionValue : Type 0 where
  seconds : Option ℕ → OptionValue
  other : ℕ → OptionValue

-- what is given to the native client: nothing, bytes, or the iterator of the stream
pub data Body : Type 0 where
  nothing iterator : Body
  whole : Bytes → Body

-- The parts of a request that the transport reads; `content` is what the property gives.
pub record HttpRequest : Type 0 where
  pub url : Url
  pub content : Result Bytes
  pub timeout : Option (Dict (Option ℕ))
  pub private_options : Option (Dict OptionValue)
  pub is_sync : Bool

pub or_empty : {A : Type 0} → Option (Dict A) → Dict A
or_empty none = []
or_empty (some d) = d

-- `timeout.get(key)`
pub timeout_of : Text → Dict (Option ℕ) → Option ℕ
timeout_of key d = elim (Dict.lookup key d) [ none ↦ none | some v ↦ v ]

read_option : Option ℕ → Dict OptionValue
read_option none = []
read_option (some t) = (codes "read_timeout", seconds (some t)) ∷ []

timeout_options : Dict (Option ℕ) → Dict OptionValue
timeout_options d = Dict.put (codes "_write_timeout") (seconds (timeout_of (codes "write") d)) (
    Dict.put (codes "_pool_timeout") (seconds (timeout_of (codes "pool") d))
      (read_option (timeout_of (codes "read") d)))

pub request_options : HttpRequest → Result (Dict OptionValue)
request_options r = do
  ensure (r.url.scheme == codes "http" || r.url.scheme == codes "https") unsupported_protocol
  ok (Dict.update (timeout_options (or_empty r.timeout)) (or_empty r.private_options))

pub request_body : Result Bytes → Result Body
request_body (ok []) = ok nothing
request_body (ok (c ∷ content)) = ok (whole (c ∷ content))
request_body (err request_not_read) = ok iterator
request_body (err e) = err e

-- the test of the constructor
pub checked_retries : ℤ → Result ℕ
checked_retries (pos n) = ok n
checked_retries (negsuc n) = err value_error

-- `except (ConnectError, ConnectTimeout)`
pub is_connect : Exception → Bool
is_connect connect_error = true
is_connect connect_timeout = true
is_connect _ = false

-- what is made of the request before the loop
pub arguments : HttpRequest → Result (Body × Dict OptionValue)
arguments r = do
  ensure r.is_sync assertion_error
  body ← request_body r.content
  options ← request_options r
  ok (body, options)

module _ {W N : Type 0} (send : Body → Dict OptionValue → M W N)
    -- `time.sleep`, in halves of a second
    (sleep : ℕ → W → W) (retries : ℕ) where
  pause : ℕ → W → W
  pause attempt w = if ltb 1 attempt then sleep (2 ^ (attempt - 2)) w else w

  -- what follows a call of the native client, with the attempts behind it
  tried : (W → Option (Result N × W)) → ℕ → Result N × W → Option (Result N × W)
  tried again attempt (ok native, w) = some (ok native, w)
  tried again attempt (err e, w) =
      if not (is_connect e)
      then some (err e, w)
      else if attempt == retries
      then some (err e, w)
      else again w

  -- The loop from an attempt, with as many left as the range has. Behind the range there is no
  -- response.
  attempts : Body → Dict OptionValue → ℕ → ℕ → W → Option (Result N × W)
  attempts body options zero attempt w = none
  attempts body options (suc left) attempt w =
      tried (attempts body options left (attempt + 1)) attempt (send body options (pause attempt w))

  sent : Result (Body × Dict OptionValue) → W → Option (Result N × W)
  sent (err e) w = some (err e, w)
  sent (ok (body, options)) w = attempts body options (retries + 1) 0 w

  -- `handle_request` up to the response, which has the fields of the native one
  pub handle_request : HttpRequest → W → Option (Result N × W)
  handle_request r w = sent (arguments r) w
