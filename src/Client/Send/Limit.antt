-- ===== src/Client/Send/Limit.antt =====
-- The limit on redirects raises for no response that is within it.
use httpxp.Prelude.{
  Bool, List, Option, [], ap, arith, dec_le, length, length-append, some, suc, zero, ℕ, ◌∷◌, ◌≡◌,
  ◌≤◌,
}
use httpxp.Exceptions.Result.{Result, ok, err}
use httpxp.Client.Redirect.{Request}
use httpxp.Client.Send.{
  Response, Returned, Round, World, done, again, resume, round, send_handling_redirects,
}
use httpxp.Client.Send.Rounds.{Ends, round-Ends, round-past_limit, round-within}

module _ {W : Type 0} (world : World W) (b : Bool) where
  -- a loop that is given the limit
  abbrev Loop : Type 0
  Loop = ℕ → Request → List Response → W → Option (Result Returned × W)

  -- What a loop returns, it returns under every limit that the history is within.
  abbrev IsKept : (ℕ → Option (Result Returned × W)) → List Response → Returned → W → Type 0
  IsKept run history r v =
      (length history ≤ length r.history)
      × ((m : ℕ) → length r.history ≤ m → run m ≡ some (ok r, v))

  some-inj : {A : Type 0} (a c : A) → ◌≡◌ {A = Option A} (some a) (some c) → a ≡ c
  some-inj a c e = cc

  resume-IsKept :
      (loop : Loop) (max : ℕ) (history : List Response) (p : Result Round × W) (r : Returned)
      (v : W)
      → Ends b max history p.0
      → resume world b (loop max) p ≡ some (ok r, v)
      → ((next : Request) (later : List Response) (w : W)
          → loop max next later w ≡ some (ok r, v)
          → IsKept (λ m. loop m next later w) later r v)
      → IsKept (λ m. resume world b (loop m) p) history r v
  unfolding resume
  resume-IsKept loop max history (err e, w) r v n h k = absurd (cc h)
  resume-IsKept loop max history (ok (done s), w) r v n h k =
      let same : s ≡ r = cc h in
      (
        omega (arith, ap (length {A = Response}) n.0, ap (λ (x : Returned). length x.history) same),
        (λ m i. h),
      )
  resume-IsKept loop max history (ok (again next later), w) r v (response, n, _, _) h k =
      let (i, j) = k next later w h in
      (omega (arith, i, ap (length {A = Response}) n, length-append history (response ∷ [])), j)

  -- the round is within the limit, as it does not raise
  within :
      (loop : Loop) (max : ℕ) (request : Request) (history : List Response) (w : W) (r : Returned)
      (v : W)
      → resume world b (loop max) (round world b max request history w) ≡ some (ok r, v)
      → length history ≤ max
  unfolding resume
  within loop max request history w r v h = elim (dec_le (length history) max) [
    | yes i ↦ i
    | no i ↦ absurd (cc (rw (round-past_limit world max history b request w (omega arith)) at h))
  ]

  send_handling_redirects-IsKept :
      (fuel max : ℕ) (request : Request) (history : List Response) (w : W) (r : Returned) (v : W)
      → send_handling_redirects world b fuel max request history w ≡ some (ok r, v)
      → IsKept (λ m. send_handling_redirects world b fuel m request history w) history r v
  unfolding send_handling_redirects
  send_handling_redirects-IsKept zero max request history w r v h = absurd (cc h)
  send_handling_redirects-IsKept (suc fuel) max request history w r v h =
      let loop : Loop = send_handling_redirects world b fuel in
      let i = within loop max request history w r v h in
      let (j, k) =
        resume-IsKept loop max history (round world b max request history w) r v
          (round-Ends world max history b request w i) h
          (λ next later w' e. send_handling_redirects-IsKept fuel max next later w' r v e) in
      (j, λ m l. rw (round-within world max history m b request w i (omega arith)) (k m l))

  -- If the loop returns a response under some limit, then with the same fuel it returns this response
  -- and leaves the same world under every limit that is not below the length of the response's
  -- history: a limit keeps no response from being returned that is within it.
  pub send_handling_redirects-limit :
      (fuel max m : ℕ) (request : Request) (history : List Response) (w : W) (r : Returned) (v : W)
      → send_handling_redirects world b fuel max request history w ≡ some (ok r, v)
      → length r.history ≤ m
      → send_handling_redirects world b fuel m request history w ≡ some (ok r, v)
  send_handling_redirects-limit fuel max m request history w r v h l =
      (send_handling_redirects-IsKept fuel max request history w r v h).1 m l
