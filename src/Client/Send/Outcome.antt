-- ===== src/Client/Send/Outcome.antt =====
-- The loop ends, within the limit on redirects.
use httpxp.Prelude.{
  All, Bool, List, Option, [], all, ap, append-nil, append_assoc, arith, dec_le, false, length,
  length-append, none, refl, some, suc, sym, true, zero, ℕ, ◌&&◌, ◌++◌, ◌+◌, ◌<◌, ◌↔◌, ◌∙◌, ◌∷◌,
  ◌≡◌, ◌≤◌,
}
use httpxp.Exceptions.Result.{Result, ok, err}
use httpxp.Client.Redirect.{Request}
use httpxp.Client.Send.{
  too_many_redirects, Response, World, Returned, Round, done, again, has_redirect_location, round,
  resume, send_handling_redirects,
}
use httpxp.Client.Send.Rounds.{Ends, round-Ends, round-past_limit}

-- A redirect is returned only if redirects are not followed, and then there is no further history.
abbrev pub IsFinal : Bool → List Response → Returned → Type 0
IsFinal true history r = has_redirect_location r.response ≡ false
IsFinal false history r = r.history ≡ history

-- What is returned: the response with the given history, behind which only redirects stand, within
-- the limit; with no further history unless redirects are followed; a redirect only if they are not followed; and a
-- next request exactly for a redirect.
pub record IsReturned (follow : Bool) (max : ℕ) (history : List Response) (r : Returned)
    : Type 0 where
  pub extends :
      (more : List Response) × (r.history ≡ history ++ more)
      × All (λ x. has_redirect_location x ≡ true) more
  pub bounded : length r.history ≤ max
  pub final : IsFinal follow history r
  pub next : (r.next_request ≡ none) ↔ (has_redirect_location r.response ≡ false)

abbrev pub IsOutcome : Bool → ℕ → List Response → Result Returned → Type 0
IsOutcome follow max history (ok r) = IsReturned follow max history r
IsOutcome follow max history (err e) = Unit

IsFinal-done :
    (b : Bool) (history : List Response) (r : Returned)
    → r.history ≡ history
    → (has_redirect_location r.response && b) ≡ false
    → IsFinal b history r
IsFinal-done true history r e f = ground arith
IsFinal-done false history r e f = e

IsFinal-again :
    (b : Bool) (history later : List Response) (r : Returned)
    → b ≡ true
    → IsFinal b later r
    → IsFinal b history r
IsFinal-again true history later r e f = f
IsFinal-again false history later r e f = cc

module _ {W : Type 0} (world : World W) (b : Bool) (max : ℕ) where
  -- an outcome of the loop
  abbrev pub Terminates : Option (Result Returned × W) → List Response → Type 0
  Terminates o history =
      (r : Result Returned) × (w : W) × (o ≡ some (r, w)) × IsOutcome b max history r

  IsReturned-done :
      (history : List Response) (r : Returned)
      → length history ≤ max
      → Ends b max history (ok (done r))
      → IsReturned b max history r
  IsReturned-done history r h (e, f, n) = record {
    extends = ([], e ∙ sym (append-nil _), tt);
    bounded = omega (arith, ap (length {A = Response}) e);
    final = IsFinal-done b history r e f;
    next = n;
  }

  IsOutcome-again :
      (history later : List Response) (response : Response) (r : Result Returned)
      → later ≡ history ++ response ∷ []
      → has_redirect_location response ≡ true
      → b ≡ true
      → IsOutcome b max later r
      → IsOutcome b max history r
  IsOutcome-again history later response (ok r) e i t o = record {
    extends =
        let (more, f, all) = o.extends in
        (response ∷ more, f ∙ rw e (append_assoc history (response ∷ []) more), (i, all));
    bounded = o.bounded;
    final = IsFinal-again b history later r t o.final;
    next = o.next;
  }
  IsOutcome-again history later response (err x) e i t o = tt

  resume-Terminates :
      (history : List Response) (loop : Request → List Response → W → Option (Result Returned × W))
      (p : Result Round × W)
      → length history ≤ max
      → Ends b max history p.0
      → ((next : Request) (later : List Response) (w : W)
          → length later ≡ suc (length history)
          → Terminates (loop next later w) later)
      → Terminates (resume world b loop p) history
  unfolding resume
  resume-Terminates history loop (err e, w) h n k = (err e, w, refl, tt)
  resume-Terminates history loop (ok (done r), w) h n k =
      (ok r, w, refl, IsReturned-done history r h n)
  resume-Terminates history loop (ok (again next later), w) h (response, n, i, t) k =
      let (r, w', e, o) =
        k next later w
          (ap (length {A = Response}) n ∙ length-append history (response ∷ []) ∙ omega arith) in
      (r, w', e, IsOutcome-again history later response r n i t o)

  pub send_handling_redirects_lem :
      (fuel : ℕ) (request : Request) (history : List Response) (w : W)
      → max < fuel + length history
      → Terminates (send_handling_redirects world b (suc fuel) max request history w) history
  unfolding send_handling_redirects
  send_handling_redirects_lem zero request history w h =
      rw (round-past_limit world max history b request w (omega arith))
        (err too_many_redirects, w, (unfold resume in refl), tt)
  send_handling_redirects_lem (suc fuel) request history w h = elim (dec_le (length history) max) [
    | yes p ↦
        resume-Terminates history (send_handling_redirects world b (suc fuel) max)
          (round world b max request history w) p (round-Ends world max history b request w p)
          (λ next later w' e. send_handling_redirects_lem fuel next later w' (omega arith))
    | no p ↦
        rw (round-past_limit world max history b request w (omega arith))
          (err too_many_redirects, w, (unfold resume in refl), tt)
  ]
