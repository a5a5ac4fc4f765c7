-- ===== src/Transports/Asgi/Answer.antt =====
-- What the response of an ASGI application holds, by the messages that the application sent.
use httpxp.Transports.Asgi.{
  AsgiRequest, AsgiResponse, AsgiTransport, Exchange, Message, RawHeaders, Scope, Task, begin,
  conclude, ended, give_up, handle_async_request, handled, is_exception, is_not_none, or_default,
  respond, run, scope_of,
}
use httpxp.Prelude.{
  Bool, Bool-cases, Bytes, List, Option, [], arith, codes, concat, false, inl, inr, none, not, refl,
  some, subst, sym, true, ℕ, ◌==◌, ◌||◌, ◌∙◌, ◌∷◌, ◌≡◌, nat_eq, list_eq,
}
use httpxp.Exceptions.{Exception}
use httpxp.Exceptions.Result.{Result, ok, err}
use httpxp.Urls.Url.{UrlPlatform}
use httpxp.Transports.Asgi.Log.{Tracks, accepted, starts, bodies, sent_body, IsEnded, recorded}
use httpxp.Transports.Asgi.Tracking.{run-Tracks}

-- The start that was sent: exactly one by an application that ended, and at most one by one that
-- raised, where 500 without headers stands for none.
abbrev pub HasStart : Result (Unit {0}) → List (Option ℕ × RawHeaders) → AsgiResponse → Type 0
HasStart (ok _) l r = l ≡ (some r.status_code, r.headers) ∷ []
HasStart (err e) [] r = (r.status_code ≡ 500) × (r.headers ≡ [])
HasStart (err e) (s ∷ l) r = s ∷ l ≡ (some r.status_code, r.headers) ∷ []

abbrev pub HasEnd : Result (Unit {0}) → List (Bytes × Bool) → Type 0
HasEnd (ok _) l = IsEnded l true
HasEnd (err e) l = Unit

pub record IsAnswered (is_head : Bool) (outcome : Result (Unit {0})) (log : List Message)
    (r : AsgiResponse) : Type 0 where
  start : HasStart outcome (starts log) r
  body : r.body ≡ sent_body is_head (bodies log)
  complete : HasEnd outcome (bodies log)

concluded :
    (x : Exchange) (r : AsgiResponse)
    → conclude (ok tt, x) ≡ ok r
    → (x.response_complete ≡ true)
      × (x.status_code ≡ some r.status_code)
      × (x.response_headers ≡ some r.headers)
      × (concat x.body_parts ≡ r.body)
unfolding conclude is_not_none or_default
concluded x r h = ground arith

recorded_start :
    (b : Bool) (n : ℕ) (h : RawHeaders) (l : List (Option ℕ × RawHeaders))
    → recorded b (some n) (some h) ≡ some l
    → l ≡ (some n, h) ∷ []
recorded_start false n h l e = absurd (cc e)
recorded_start true n h l e = cc e

gave_up_start :
    (k : Exception) (b : Bool) (s : Option ℕ) (h : Option RawHeaders)
    (l : List (Option ℕ × RawHeaders)) (r : AsgiResponse)
    → recorded b s h ≡ some l
    → or_default 500 s ≡ r.status_code
    → or_default [] h ≡ r.headers
    → HasStart (err k) l r
unfolding or_default
gave_up_start k false none none l r e m n =
    let q : [] ≡ l = cc e in subst (λ t. HasStart (err k) t r) q (sym m, sym n)
gave_up_start k true (some a) (some b) l r e m n =
    let q : (some a, b) ∷ [] ≡ l = cc e in subst (λ t. HasStart (err k) t r) q (rw (m, n) refl)
gave_up_start k false none (some _) l r e m n = absurd (cc e)
gave_up_start k false (some _) h l r e m n = absurd (cc e)
gave_up_start k true none h l r e m n = absurd (cc e)
gave_up_start k true (some a) none l r e m n = absurd (cc e)

begin-Tracks : (is_head : Bool) (r : AsgiRequest) → Tracks is_head [] (begin r)
unfolding begin
begin-Tracks true r = record { started = refl; body = refl; complete = refl }
begin-Tracks false r = record { started = refl; body = refl; complete = refl }

module _ (is_head : Bool) (log : List Message) (x : Exchange) (h : Tracks is_head log x) where
  finished-IsAnswered :
      (r : AsgiResponse) → conclude (ok tt, x) ≡ ok r → IsAnswered is_head (ok tt) log r
  finished-IsAnswered r e =
      let (c, s, d, b) = concluded x r e in
      record {
        start = recorded_start x.response_started _ _ (starts log) (rw (s, d) at h.started);
        body = sym b ∙ h.body;
        complete = rw c at h.complete;
      }

  handled-IsAnswered :
      (raises : Bool) (outcome : Result (Unit {0})) (r : AsgiResponse)
      → conclude (handled raises outcome x) ≡ ok r
      → IsAnswered is_head outcome log r
  unfolding handled give_up conclude
  handled-IsAnswered raises (ok _) r e = finished-IsAnswered r e
  handled-IsAnswered raises (err k) r e = elim (Bool-cases (raises || not (is_exception k))) [
    | inl out ↦ absurd (ground (arith, out, e))
    | inr kept ↦
        let (c, s, d, b) = concluded (give_up x) r (ground (arith, kept, e)) in
        record {
          start =
              gave_up_start k x.response_started x.status_code x.response_headers (starts log) r
                h.started (cc s) (cc d);
          body = sym b ∙ h.body;
          complete = tt;
        }
  ]

ended-IsAnswered :
    (is_head raises : Bool) (t : Task) (x : Exchange) (r : AsgiResponse)
    → Tracks is_head [] x
    → ended raises (run is_head t x) ≡ some (ok r)
    → (outcome : Result (Unit {0})) × ((run is_head t x).0 ≡ some outcome)
      × IsAnswered is_head outcome (accepted is_head t x) r
unfolding ended
ended-IsAnswered is_head raises t x r h e = of_run (run is_head t x) (run-Tracks is_head t [] x h) e
  where
    of_run :
        (o : Option (Result (Unit {0})) × Exchange)
        → Tracks is_head (accepted is_head t x) o.1
        → ended raises o ≡ some (ok r)
        → (outcome : Result (Unit {0})) × (o.0 ≡ some outcome)
          × IsAnswered is_head outcome (accepted is_head t x) r
    of_run (none, y) h e = absurd (cc e)
    of_run (some k, y) h e =
        (k, refl, handled-IsAnswered is_head (accepted is_head t x) y h raises k r (cc e))

-- If an application's exchange gives a response, the application has ended or raised. The status and
-- the headers are those of the one accepted start, where an application that raised may have sent
-- none, which gives 500 without headers. The body is what the accepted messages hold, joined, or
-- empty for a HEAD request; and if the application ended, exactly one of these has nothing more to
-- come, the last.
pub handle_async_request-IsAnswered :
    (p : UrlPlatform) (t : AsgiTransport) (r : AsgiRequest) (scope : Scope)
    (response : AsgiResponse)
    → scope_of p t r ≡ ok scope
    → handle_async_request p t r ≡ some (ok response)
    → (outcome : Result (Unit {0})) × ((run (r.method == codes "HEAD") (t.app scope) (begin r)).0
        ≡ some outcome)
      × IsAnswered
          (r.method == codes "HEAD")
          outcome
          (accepted (r.method == codes "HEAD") (t.app scope) (begin r))
          response
unfolding handle_async_request respond
handle_async_request-IsAnswered p t r scope response s e =
    ended-IsAnswered (r.method == codes "HEAD") t.raise_app_exceptions (t.app scope) (begin r)
      response (begin-Tracks (r.method == codes "HEAD") r) (ground (arith, s, e))
