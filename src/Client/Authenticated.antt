-- ===== src/Client/Authenticated.antt =====
-- `send` and `_send_handling_auth` of httpxp/_client.py: the loop over the requests of an
-- authentication flow, each of which goes through the loop over the redirects.
mod Ending
mod Tests
use httpxp.Prelude.{Bool, List, Option, [], false, none, some, suc, true, zero, ℕ, ◌++◌, ◌∷◌}
use httpxp.Exceptions.{runtime_error}
use httpxp.Exceptions.Result.{Result, ok, err}
use httpxp.Auth.{Auth, FlowPlatform, first_request, next_request}
use httpxp.Client.Redirect.{Request}
use httpxp.Client.Send.{Response, Returned, World, send_handling_redirects}
use httpxp.Models.Headers.Exec.{Headers}

pub data ClientState : Type 0 where
  unopened opened closed : ClientState

-- The flow waits for its first response, or has had it.
pub data Position : Type 0 where
  started answered : Position

pub record AuthWorld (W : Type 0) : Type 0 where
  pub world : World W
  pub flow : FlowPlatform
  pub headers_of : Response → Headers

-- What the loop ends with, the authentication as the flow leaves it, and the outside world.
abbrev pub Ended : Type 0 → Type 0
Ended W = Result Returned × (Auth × W)

module _ {W : Type 0} (outer : AuthWorld W) (follow_redirects : Bool) (max_redirects : ℕ) where
  -- `auth_flow.send(response)`
  resume_flow : Position → Request → Response → Auth → Result (Option Request) × Auth
  resume_flow started request response auth =
      next_request outer.flow request
        (record {
          status_code = response.status;
          headers = outer.headers_of response;
          id = response.id;
        })
        auth
  resume_flow answered request response auth = (ok none, auth)

  -- the end of the inner `try` block: an exception closes the response
  then_read :
      (List Response → W → Option (Ended W))
      → List Response
      → Returned
      → Auth
      → Result (Unit {0}) × W
      → Option (Ended W)
  then_read loop history r auth (err e, w) = some (err e, (auth, outer.world.close r.response w))
  then_read loop history r auth (ok _, w) = loop (history ++ r.response ∷ []) w

  then_flow :
      (Auth → Request → List Response → W → Option (Ended W))
      → List Response
      → Returned
      → W
      → Result (Option Request) × Auth
      → Option (Ended W)
  then_flow loop history r w (err e, auth) = some (err e, (auth, outer.world.close r.response w))
  then_flow loop history r w (ok none, auth) = some (ok r, (auth, w))
  then_flow loop history r w (ok (some next), auth) =
      then_read (loop auth next) history r auth (outer.world.read r.response w)

  then_redirects :
      (Auth → Request → List Response → W → Option (Ended W))
      → Position
      → Auth
      → Request
      → List Response
      → Option (Result Returned × W)
      → Option (Ended W)
  then_redirects loop position auth request history none = none
  then_redirects loop position auth request history (some (err e, w)) = some (err e, (auth, w))
  then_redirects loop position auth request history (some (ok r, w)) =
      then_flow loop history r w (resume_flow position request r.response auth)

  -- the `while True` loop with fuel; the redirect loop has the fuel that it needs
  pub send_loop : ℕ → Position → Auth → Request → List Response → W → Option (Ended W)
  send_loop zero position auth request history w = none
  send_loop (suc fuel) position auth request history w =
      then_redirects (send_loop fuel answered) position auth request history (
        send_handling_redirects outer.world follow_redirects (suc (suc max_redirects)) max_redirects
          request history w)

  then_first : List Response → W → Result Request × Auth → Option (Ended W)
  then_first history w (err e, auth) = some (err e, (auth, w))
  then_first history w (ok request, auth) = send_loop 2 started auth request history w

  pub send_handling_auth : Request → Auth → List Response → W → Option (Ended W)
  send_handling_auth request auth history w =
      then_first history w (first_request outer.flow request auth)

  -- the `try` block of `send`: an exception closes the response
  after_read : Returned → Auth → Result (Unit {0}) × W → Ended W
  after_read r auth (ok _, w) = (ok r, (auth, w))
  after_read r auth (err e, w) = (err e, (auth, outer.world.close r.response w))

  read_unless_streamed : Bool → Returned → Auth → W → Ended W
  read_unless_streamed true r auth w = (ok r, (auth, w))
  read_unless_streamed false r auth w = after_read r auth (outer.world.read r.response w)

  loaded : Bool → Option (Ended W) → Option (Ended W)
  loaded stream none = none
  loaded stream (some (err e, (auth, w))) = some (err e, (auth, w))
  loaded stream (some (ok r, (auth, w))) = some (read_unless_streamed stream r auth w)

  -- `send` once the authentication is built and the timeout is set, with the state of the client
  -- behind it
  pub send : ClientState → Bool → Request → Auth → W → Option (Ended W) × ClientState
  send closed stream request auth w = (some (err runtime_error, (auth, w)), closed)
  send opened stream request auth w = (loaded stream (send_handling_auth request auth [] w), opened)
  send unopened stream request auth w =
      (loaded stream (send_handling_auth request auth [] w), opened)
