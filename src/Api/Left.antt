-- ===== src/Api/Left.antt =====
-- The functions of the API leave the client that they make.
use httpxp.Prelude.{Bool, Text, ap, arith, false, refl, ℕ, ◌+◌, ◌∙◌, ◌≡◌}
use httpxp.Exceptions.Result.{Result, ok, err}
use httpxp.Api.{
  arguments_of, CallArguments, BodyArguments, request, with_client, ClientArguments, Outside,
  dropped, entered, leaving,
}
use httpxp.Client.Authenticated.{unopened, opened}
use httpxp.Client.Calls
use httpxp.Client.Calls.{Arguments}
use httpxp.Client.Exec.{continue, M, keep_result}
use httpxp.Client.Lifecycle
use httpxp.Client.Lifecycle.{Client}
use httpxp.Client.Lifecycle.Counted.{enter-new, leave-counts, IsCounted, one, tally}

module _ {W Q R : Type 0} (o : Outside W Q R) (i : ℕ) (left : W → ℕ) where
  -- What a body of a `with` block leaves alone: the transports of the client, and the count.
  abbrev pub Keeps : {A : Type 0} → M (Client × W) A → Type 0
  Keeps m =
      (c : Client) (w : W)
      → ((m (c, w)).1.0.transport ≡ c.transport)
        × ((m (c, w)).1.0.mounts ≡ c.mounts)
        × (left (m (c, w)).1.1 ≡ left w)

  -- What the outside does: a new client is unopened and its constructor leaves no transport; the
  -- transports do not raise when they are entered or left; and building a request, sending it and
  -- closing a response leave no transport and change none of the client's.
  pub record IsQuiet : Type 0 where
    pub new_client :
        (a : ClientArguments) (w : W)
        → (left (o.new_client a w).1 ≡ left w)
          × ((c : Client) → (o.new_client a w).0 ≡ ok c → c.state ≡ unopened)
    pub transports : IsCounted i left o.transports
    pub build_request :
        (method url : Text) (a : Arguments) → Keeps (o.calls.build_request method url a)
    pub send :
        (q : Q) (auth follow : Calls.Argument) (s : Bool) → Keeps (o.calls.send q auth follow s)

  -- With an exception of the constructor nothing is left. Otherwise the given transport is left
  -- as often as it stands among those of the client, and the result is the one of the body on the client that was entered.
  abbrev pub Leaves : {A : Type 0} → M (Client × W) A → Result Client × W → Result A × W → Type 0
  Leaves body (err e, v) r = r ≡ (err e, v)
  Leaves body (ok c, v) r =
      (s : Client × W) × (s.0 ≡ record c { state = opened })
      × (r.0 ≡ (body s).0)
      × (left r.1 ≡ left v + tally (one i) c)

  module _ (h : IsQuiet) {A : Type 0} (body : M (Client × W) A) (k : Keeps body) where
    kept :
        (r : Result A) (p : Result (Unit {0}) × (Client × W))
        → p.0 ≡ ok tt
        → keep_result r p ≡ (r, p.1)
    unfolding keep_result
    kept r (ok _, s) e = refl
    kept r (err _, s) e = absurd (cc e)

    dropped_left :
        (r : Result A) (c : Client) (w : W)
        → ((dropped o body (leaving o body (r, (c, w)))).0 ≡ r)
          × (left (dropped o body (leaving o body (r, (c, w)))).1 ≡ left w + tally (one i) c)
    unfolding leaving dropped
    dropped_left r c w =
        let (quiet, counted) = leave-counts i left o.transports h.transports c w in
        rw (kept r (Lifecycle.leave o.transports (c, w)) quiet) (refl, counted)

    entered-Leaves :
        (c : Client) (v : W) (p : Result (Unit {0}) × (Client × W))
        → p.0 ≡ ok tt
        → p.1.0 ≡ record c { state = opened }
        → left p.1.1 ≡ left v
        → Leaves body (ok c, v) (entered o body p)
    unfolding entered
    entered-Leaves c v (err _, s) e q l = absurd (cc e)
    entered-Leaves c v (ok _, s) e q l =
        let (transport, mounts, counted) = k s.0 s.1 in
        let (result, all_left) = dropped_left (body s).0 (body s).1.0 (body s).1.1 in
        let same : (body s).1.0.mounts ≡ c.mounts = mounts ∙ ap (λ (x : Client). x.mounts) q in
        let other : (body s).1.0.transport ≡ c.transport =
          transport ∙ ap (λ (x : Client). x.transport) q in
        (s, q, result, all_left ∙ rw (same, other) (omega (arith, counted, l)))

    Leaves-of_new :
        (v : W) (p : Result Client × W)
        → ((c : Client) → p.0 ≡ ok c → c.state ≡ unopened)
        → Leaves body p (continue p (λ c w. entered o body (Lifecycle.enter o.transports (c, w))))
    Leaves-of_new v (err e, w) new = refl
    Leaves-of_new v (ok c, w) new =
        let (done, state, counted) = enter-new i left o.transports h.transports c w (new c refl) in
        entered-Leaves c w (Lifecycle.enter o.transports (c, w)) done state counted

    pub with_client-Leaves :
        (a : ClientArguments) (w : W) → Leaves body (o.new_client a w) (with_client o body a w)
    unfolding with_client
    with_client-Leaves a w = Leaves-of_new w (o.new_client a w) (h.new_client a w).1

  Keeps-continue :
      {A B : Type 0} (c : Client) (w : W) (p : Result A × (Client × W)) (f : A → M (Client × W) B)
      → (p.1.0.transport ≡ c.transport) × (p.1.0.mounts ≡ c.mounts) × (left p.1.1 ≡ left w)
      → ((a : A) → Keeps (f a))
      → ((continue p f).1.0.transport ≡ c.transport)
        × ((continue p f).1.0.mounts ≡ c.mounts)
        × (left (continue p f).1.1 ≡ left w)
  Keeps-continue c w (err e, s) f k h = k
  Keeps-continue c w (ok a, s) f (t, m, l) h = let (u, n, j) = h a s.0 s.1 in (u ∙ t, n ∙ m, j ∙ l)

  -- If the transports do not raise when they are entered or left, and neither the constructor of the
  -- client nor building and sending a request leave or change them, then a call of the API whose
  -- client is made leaves any given transport exactly once for each place that it has in the client,
  -- as its transport or among its mounts, whether the request is answered or raises, and ends as
  -- `request` of the opened client does. If the client is not made, the
  -- exception is raised with nothing left.
  pub request-Leaves :
      IsQuiet
      → (method url : Text) (c : ClientArguments) (b : BodyArguments) (a : CallArguments) (w : W)
      → Leaves
          (Calls.request o.calls method url (arguments_of b a))
          (o.new_client c w)
          (request o method url c b a w)
  unfolding request Calls.request arguments_of
  request-Leaves h method url c b a w =
      with_client-Leaves h (Calls.request o.calls method url (arguments_of b a))
        (λ d v.
          Keeps-continue d v (o.calls.build_request method url (arguments_of b a) (d, v))
            (λ q. o.calls.send q a.auth a.follow_redirects false)
            (h.build_request method url (arguments_of b a) d v)
            (λ q. h.send q a.auth a.follow_redirects false))
        c w
