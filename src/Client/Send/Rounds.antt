-- ===== src/Client/Send/Rounds.antt =====
-- What one round of the loop can end with.
use httpxp.Prelude.{
  Bool, Bool-cases, List, [], arith, false, if◌then◌else◌, inl, inr, length, ltb, none, not, refl,
  true, ℕ, ◌&&◌, ◌++◌, ◌<◌, ◌↔◌, ◌∷◌, ◌≡◌, ◌≤◌,
}
use httpxp.Exceptions.{Exception, too_many_redirects}
use httpxp.Exceptions.Result.{Result, ok, err}
use httpxp.Client.Exec.{M, continue, cleaned}
use httpxp.Client.Redirect.{build_redirect_request, Request}
use httpxp.Client.Send.{
  redirected, returned, run_hooks, Response, World, Round, done, again, has_redirect_location,
  follow, handle, guarded, round,
}

-- A round ends with an exception; or with a response that is returned with the history of the
-- round, without a next request if it is no redirect, and with one only if redirects are not
-- followed; or with one more response at the end of the history, which is a redirect.
abbrev pub Ends : Bool → ℕ → List Response → Result Round → Type 0
Ends follow max history (err e) = Unit
Ends follow max history (ok (done r)) =
    (r.history ≡ history)
    × ((has_redirect_location r.response && follow) ≡ false)
    × ((r.next_request ≡ none) ↔ (has_redirect_location r.response ≡ false))
Ends follow max history (ok (again next later)) =
    (response : Response) × (later ≡ history ++ response ∷ [])
    × (has_redirect_location response ≡ true)
    × (follow ≡ true)

not-ltb : (m n : ℕ) → n ≤ m → ltb m n ≡ false
not-ltb m n h = ground arith

is-ltb : (m n : ℕ) → m < n → ltb m n ≡ true
is-ltb m n h = ground arith

module _ {W : Type 0} where
  -- what holds of every exception and of all that follows holds of a sequence
  post-continue :
      {A : Type 0} (P : Result Round → Type 0) (p : Result A × W) (f : A → M W Round)
      → ((e : Exception) → P (err e))
      → ((a : A) (w : W) → P (f a w).0)
      → P (continue p f).0
  post-continue P (ok a, w) f h k = k a w
  post-continue P (err e, w) f h k = h e

  post-cleaned :
      (P : Result Round → Type 0) (p : Result Round × W) (f : W → W) → P p.0 → P (cleaned p f).0
  post-cleaned P (ok a, w) f h = h
  post-cleaned P (err e, w) f h = h

module _ {W : Type 0} (world : World W) (max : ℕ) (history : List Response) where
  follow-Ends :
      (b : Bool) (response : Response) (next : Request) (w : W)
      → has_redirect_location response ≡ true
      → Ends b max history (follow world b response history next w).0
  unfolding follow
  follow-Ends true response next w h =
      post-continue (Ends true max history) (world.read response w) _ (λ e. tt)
        (λ a w'. (response, refl, h, refl))
  follow-Ends false response next w h = (refl, ground arith, ((λ e. cc), (λ e. cc)))

  decided-Ends :
      (b : Bool) (request : Request) (response : Response) (w : W)
      → Ends b max history
          ((if not (has_redirect_location response)
              then returned world b history response
              else redirected world b request history response)
            w).0
  unfolding returned redirected
  decided-Ends b request response w = elim (Bool-cases (has_redirect_location response)) [
    | inl e ↦ rw e (
        post-continue (Ends b max history)
          (build_redirect_request world.url_platform request response.status response.location, w)
          (λ built w'.
            continue (world.finish_request built w') (λ next. follow world b response history next))
          (λ _. tt)
          (λ built w'.
            post-continue (Ends b max history) (world.finish_request built w')
              (λ next. follow world b response history next) (λ _. tt)
              (λ next w''. follow-Ends b response next w'' e)))
    | inr e ↦ rw e (refl, ground arith, ((λ _. e), (λ _. refl)))
  ]

  handle-Ends :
      (b : Bool) (request : Request) (response : Response) (w : W)
      → Ends b max history (handle world b request history response w).0
  unfolding handle
  handle-Ends b request response w =
      post-continue (Ends b max history) (run_hooks world.response_hooks response w)
        (λ (_ : Unit {0}).
          if not (has_redirect_location response)
          then returned world b history response
          else redirected world b request history response)
        (λ e. tt) (λ a w'. decided-Ends b request response w')

  sent-Ends :
      (b : Bool) (request : Request) (w : W)
      → Ends b max history
          (continue
            (world.send_single_request request w)
            (λ response. guarded world b request history response)).0
  unfolding guarded
  sent-Ends b request w =
      post-continue (Ends b max history) (world.send_single_request request w)
        (λ response. guarded world b request history response) (λ e. tt)
        (λ response w'.
          post-cleaned (Ends b max history) (handle world b request history response w')
            (world.close response) (handle-Ends b request response w'))

  hooked-Ends :
      (b : Bool) (request : Request) (w : W)
      → Ends b max history
          (continue (run_hooks world.request_hooks request w) (λ (_ : Unit {0}) w'.
            continue
              (world.send_single_request request w')
              (λ response. guarded world b request history response))).0
  hooked-Ends b request w =
      post-continue (Ends b max history) (run_hooks world.request_hooks request w)
        (λ (_ : Unit {0}) w'.
          continue (world.send_single_request request w')
            (λ response. guarded world b request history response))
        (λ e. tt) (λ a w'. sent-Ends b request w')

  -- Within the limit, it makes no difference.
  pub round-within :
      (m : ℕ) (b : Bool) (request : Request) (w : W)
      → length history ≤ max
      → length history ≤ m
      → round world b m request history w ≡ round world b max request history w
  unfolding round
  round-within m b request w h k =
      rw (not-ltb max (length history) h, not-ltb m (length history) k) refl

  -- Whatever the hooks, the transport and the streams do.
  pub round-Ends :
      (b : Bool) (request : Request) (w : W)
      → length history ≤ max
      → Ends b max history (round world b max request history w).0
  unfolding round
  round-Ends b request w h = rw (not-ltb max (length history) h) (hooked-Ends b request w)

  -- Past the limit a round does nothing but raise.
  pub round-past_limit :
      (b : Bool) (request : Request) (w : W)
      → max < length history
      → round world b max request history w ≡ (err too_many_redirects, w)
  unfolding round
  round-past_limit b request w h = rw (is-ltb max (length history) h)
