-- ===== src/Client/Authenticated/Ending.antt =====
-- A request is sent at most twice for a flow of the library's own schemes, so the loop ends.
use httpxp.Prelude.{
  Bool, List, Option, [], arith, false, length, none, refl, some, suc, true, ℕ, ◌&&◌, ◌++◌, ◌↔◌,
  ◌∷◌, ◌≡◌, ◌≤◌,
}
use httpxp.Exceptions.Result.{Result, ok, err}
use httpxp.Auth.{Auth, first_request}
use httpxp.Client.Authenticated.{
  AuthWorld, Ended, Position, answered, resume_flow, send_handling_auth, send_loop, started,
  then_first, then_flow, then_read, then_redirects,
}
use httpxp.Client.Redirect.{Request}
use httpxp.Client.Send.{Response, Returned, has_redirect_location}
use httpxp.Client.Send.Outcome.{IsOutcome, IsReturned, send_handling_redirects_lem}

-- What is returned: a history within the limit, a redirect only if they are not followed, and a next
-- request exactly for a redirect.
pub record IsAnswer (follow : Bool) (max : ℕ) (r : Returned) : Type 0 where
  pub bounded : length r.history ≤ max
  pub final : (follow && has_redirect_location r.response) ≡ false
  pub next : (r.next_request ≡ none) ↔ (has_redirect_location r.response ≡ false)

IsAnswer-of_returned :
    (follow : Bool) (max : ℕ) (history : List Response) (r : Returned)
    → IsReturned follow max history r
    → IsAnswer follow max r
IsAnswer-of_returned true max history r h = record {
  bounded = h.bounded;
  final = h.final;
  next = h.next;
}
IsAnswer-of_returned false max history r h = record {
  bounded = h.bounded;
  final = refl;
  next = h.next;
}

abbrev pub Outcome : Bool → ℕ → Result Returned → Type 0
Outcome follow max (ok r) = IsAnswer follow max r
Outcome follow max (err e) = Unit

module _ {W : Type 0} (outer : AuthWorld W) (follow : Bool) (max : ℕ) where
  -- It ends, with an exception or an answer.
  abbrev pub Ends : Option (Ended W) → Type 0
  Ends o = (r : Result Returned) × (rest : Auth × W) × (o ≡ some (r, rest)) × Outcome follow max r

  IsEnding : (Auth → Request → List Response → W → Option (Ended W)) → Type 0
  IsEnding loop =
      (auth : Auth) (request : Request) (history : List Response) (w : W)
      → Ends (loop auth request history w)

  then_read-Ends :
      (loop : List Response → W → Option (Ended W)) (history : List Response) (r : Returned)
      (auth : Auth) (p : Result (Unit {0}) × W)
      → ((later : List Response) (w : W) → Ends (loop later w))
      → Ends (then_read outer follow max loop history r auth p)
  unfolding then_read
  then_read-Ends loop history r auth (err e, w) h =
      (err e, (auth, outer.world.close r.response w), refl, tt)
  then_read-Ends loop history r auth (ok _, w) h = h (history ++ r.response ∷ []) w

  -- a response is the answer unless the flow goes on, with a loop that ends
  then_flow-Ends :
      (loop : Auth → Request → List Response → W → Option (Ended W)) (history : List Response)
      (r : Returned) (w : W) (p : Result (Option Request) × Auth)
      → IsAnswer follow max r
      → ((next : Request) → p.0 ≡ ok (some next) → IsEnding loop)
      → Ends (then_flow outer follow max loop history r w p)
  unfolding then_flow IsEnding
  then_flow-Ends loop history r w (err e, auth) a h =
      (err e, (auth, outer.world.close r.response w), refl, tt)
  then_flow-Ends loop history r w (ok none, auth) a h = (ok r, (auth, w), refl, a)
  then_flow-Ends loop history r w (ok (some next), auth) a h =
      then_read-Ends (loop auth next) history r auth (outer.world.read r.response w)
        (h next refl auth next)

  then_redirects-Ends :
      (loop : Auth → Request → List Response → W → Option (Ended W)) (position : Position)
      (auth : Auth) (request : Request) (history : List Response) (r : Result Returned) (w : W)
      → IsOutcome follow max history r
      → ((next : Request) (response : Response)
          → (resume_flow outer follow max position request response auth).0 ≡ ok (some next)
          → IsEnding loop)
      → Ends (then_redirects outer follow max loop position auth request history (some (r, w)))
  unfolding then_redirects
  then_redirects-Ends loop position auth request history (err e) w o h =
      (err e, (auth, w), refl, tt)
  then_redirects-Ends loop position auth request history (ok r) w o h =
      then_flow-Ends loop history r w
        (resume_flow outer follow max position request r.response auth)
        (IsAnswer-of_returned follow max history r o) (λ next e. h next r.response e)

  send_loop-suc :
      (fuel : ℕ) (position : Position) (auth : Auth) (request : Request) (history : List Response)
      (w : W)
      → ((next : Request) (response : Response)
          → (resume_flow outer follow max position request response auth).0 ≡ ok (some next)
          → IsEnding (send_loop outer follow max fuel answered))
      → Ends (send_loop outer follow max (suc fuel) position auth request history w)
  unfolding send_loop
  send_loop-suc fuel position auth request history w h =
      let (r, w', e, o) =
        send_handling_redirects_lem outer.world follow max (suc max) request history w
          (omega arith) in
      rw e (
        then_redirects-Ends (send_loop outer follow max fuel answered) position auth request history
          r w' o h)

  -- behind the second response the flow has ended
  send_loop-answered : IsEnding (send_loop outer follow max 1 answered)
  unfolding IsEnding resume_flow
  send_loop-answered auth request history w =
      send_loop-suc 0 answered auth request history w (λ next response e. absurd (cc e))

  then_first-Ends :
      (history : List Response) (w : W) (p : Result Request × Auth)
      → Ends (then_first outer follow max history w p)
  unfolding then_first
  then_first-Ends history w (err e, auth) = (err e, (auth, w), refl, tt)
  then_first-Ends history w (ok request, auth) =
      send_loop-suc 1 started auth request history w (λ next response e. send_loop-answered)

  -- Whatever the transport, the hooks and the server do, without an authentication and with one of
  -- the library's own schemes (a function, basic, netrc or digest), two rounds of the loop are
  -- enough: it raises or returns a response, with a history within the limit on the
  -- redirects, which is a redirect only if redirects are not followed and has a next request
  -- exactly if it is one.
  pub send_handling_auth-Ends :
      (request : Request) (auth : Auth) (history : List Response) (w : W)
      → Ends (send_handling_auth outer follow max request auth history w)
  unfolding send_handling_auth
  send_handling_auth-Ends request auth history w =
      then_first-Ends history w (first_request outer.flow request auth)
