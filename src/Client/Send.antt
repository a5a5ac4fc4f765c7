-- ===== src/Client/Send.antt =====
-- `_send_handling_redirects` of httpxp/_client.py. The hooks, the transport and the streams are the
-- outside world: parameters that act on its state.
mod Rounds
pub mod Outcome
mod Limit
mod Tests
use httpxp.Prelude.{
  Bool, List, Option, Text, [], false, if◌then◌else◌, length, ltb, none, not, some, suc, true, zero,
  ℕ, ◌&&◌, ◌++◌, ◌==◌, ◌||◌, ◌∷◌, nat_eq,
}
use httpxp.Exceptions.{too_many_redirects}
use httpxp.Exceptions.Result.{Result, ok, err}
use httpxp.Urls.Url.{UrlPlatform}
use httpxp.Client.Exec.{lift, M, pure, raise, cleaned, ◌>>=◌, ◌>>◌}
use httpxp.Client.Redirect.{build_redirect_request, Request}

-- What the client reads of a response; `id` is the object.
pub record Response : Type 0 where
  pub status : ℕ
  pub location : Option Text
  pub id : ℕ

-- the list of status codes of `has_redirect_location`
is_redirect_status : ℕ → Bool
is_redirect_status s = s == 301 || s == 302 || s == 303 || s == 307 || s == 308

is_some {ℓ} : {A : Type ℓ} → Option A → Bool
is_some none = false
is_some (some _) = true

pub has_redirect_location : Response → Bool
has_redirect_location r = is_redirect_status r.status && is_some r.location

pub record World (W : Type 0) : Type 0 where
  -- the event hooks, in order
  pub request_hooks : List (Request → M W (Unit {0}))
  pub response_hooks : List (Response → M W (Unit {0}))
  -- `_send_single_request`
  pub send_single_request : Request → M W Response
  -- what the constructor of `Request` does with the cookies of the client and with a missing body
  pub finish_request : Request → M W Request
  -- what `URL` takes from Python and its packages
  pub url_platform : UrlPlatform
  -- `response.read()` and `response.close()`
  pub read : Response → M W (Unit {0})
  pub close : Response → W → W

-- A response as it is returned, with what is stored on it.
pub record Returned : Type 0 where
  pub response : Response
  pub history : List Response
  pub next_request : Option Request

-- What one round of the loop ends with.
pub data Round : Type 0 where
  done : Returned → Round
  again : Request → List Response → Round

run_hooks : {W A : Type 0} → List (A → M W (Unit {0})) → A → M W (Unit {0})
run_hooks [] a = pure tt
run_hooks (hook ∷ hooks) a = do hook a; run_hooks hooks a

module _ {W : Type 0} (world : World W) (follow_redirects : Bool) where
  -- the end of the `try` block, once the next request is built
  follow : Response → List Response → Request → M W Round
  follow response history request =
      if follow_redirects
      then (do world.read response; pure (again request (history ++ response ∷ [])))
      else pure
          (done (record { response = response; history = history; next_request = some request }))

  redirected : Request → List Response → Response → M W Round
  redirected request history response = do
    built ←
        lift (build_redirect_request world.url_platform request response.status response.location)
    next ← world.finish_request built
    follow response history next

  returned : List Response → Response → M W Round
  returned history response =
      pure (done (record { response = response; history = history; next_request = none }))

  -- the `try` block
  handle : Request → List Response → Response → M W Round
  handle request history response =
      run_hooks world.response_hooks response
      >> (if not (has_redirect_location response)
          then returned history response
          else redirected request history response)

  guarded : Request → List Response → Response → M W Round
  guarded request history response w =
      cleaned (handle request history response w) (world.close response)

  -- one round of `while True`
  pub round : ℕ → Request → List Response → M W Round
  round max_redirects request history = do
    (if ltb max_redirects (length history) then raise too_many_redirects else pure tt)
    run_hooks world.request_hooks request
    response ← world.send_single_request request
    guarded request history response

  -- what follows a round, given the next rounds
  pub resume :
      (Request → List Response → W → Option (Result Returned × W))
      → Result Round × W
      → Option (Result Returned × W)
  resume loop (err e, w) = some (err e, w)
  resume loop (ok (done r), w) = some (ok r, w)
  resume loop (ok (again next history), w) = loop next history w

  -- the loop with fuel; `none` means that the fuel ran out
  pub send_handling_redirects : ℕ → ℕ → Request → List Response → W → Option (Result Returned × W)
  send_handling_redirects zero max_redirects request history w = none
  send_handling_redirects (suc fuel) max_redirects request history w =
      resume (send_handling_redirects fuel max_redirects) (round max_redirects request history w)
