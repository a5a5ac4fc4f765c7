-- ===== src/Client/Lifecycle/Closed.antt =====
-- A client that was closed stays closed.
use httpxp.Prelude.{
  Bool, List, Option, [], all, arith, false, refl, subst, sym, true, ℕ, ◌∙◌, ◌∷◌, ◌≡◌,
}
use httpxp.Exceptions.{runtime_error}
use httpxp.Exceptions.Result.{Result, ok, err}
use httpxp.Client.Authenticated.{opened, unopened, ClientState, closed}
use httpxp.Client.Lifecycle.{
  Client, Operation, TransportMethods, close, close_in, closing, enter, enter_in, entering, leave,
  leaving, marked, of_client, perform, run, sending, use_in, used,
}

module _ {W : Type 0} (t : TransportMethods W) where
  -- what a call gives on a closed client
  abbrev pub Refused : Operation W → Result (Unit {0}) → Type 0
  Refused entering r = r ≡ err runtime_error
  Refused leaving r = Unit
  Refused closing r = r ≡ ok tt
  Refused (sending m) r = r ≡ err runtime_error

  abbrev pub AllRefused : List (Operation W) → List (Result (Unit {0})) → Type 0
  AllRefused [] [] = Unit
  AllRefused (o ∷ os) (r ∷ rs) = Refused o r × AllRefused os rs
  AllRefused _ _ = ⊥

  -- `__exit__` alone passes its call on to the transports of a closed client
  abbrev pub is_quiet : Operation W → Bool
  is_quiet leaving = false
  is_quiet _ = true

  abbrev pub ends : Operation W → Bool
  ends leaving = true
  ends closing = true
  ends _ = false

  -- Behind a closed client and a world: the results, the state, and the world without `__exit__`.
  pub record StaysClosed (os : List (Operation W)) (w : W)
      (o : List (Result (Unit {0})) × (Client × W)) : Type 0 where
    pub refused : AllRefused os o.0
    pub state : o.1.0.state ≡ closed
    pub untouched : all is_quiet os ≡ true → o.1.1 ≡ w

  -- One call on a client in a state.
  abbrev StillClosed : Operation W → W → Result (Unit {0}) × (Client × W) → Type 0
  StillClosed o w r = Refused o r.0 × (r.1.0.state ≡ closed) × (is_quiet o ≡ true → r.1.1 ≡ w)

  perform-fields :
      (o : Operation W) (transport : ℕ) (mounts : List (Option ℕ)) (w : W)
      → StillClosed o w
          (perform t o (record { state = closed; transport = transport; mounts = mounts }, w))
  unfolding perform enter enter_in leave close close_in used use_in marked of_client
  perform-fields entering transport mounts w = (refl, refl, λ _. refl)
  perform-fields leaving transport mounts w = (tt, refl, λ e. absurd (cc e))
  perform-fields closing transport mounts w = (refl, refl, λ _. refl)
  perform-fields (sending m) transport mounts w = (refl, refl, λ _. refl)

  perform-closed :
      (o : Operation W) (c : Client) (w : W)
      → c.state ≡ closed
      → StillClosed o w (perform t o (c, w))
  perform-closed o c w e =
      subst
        (λ s.
          StillClosed o w
            (perform t o (record { state = s; transport = c.transport; mounts = c.mounts }, w)))
        (sym e) (perform-fields o c.transport c.mounts w)

  run-closed :
      (os : List (Operation W)) (c : Client) (w : W)
      → c.state ≡ closed
      → StaysClosed os w (run t os (c, w))
  unfolding run
  run-closed [] c w e = record { refused = tt; state = e; untouched = λ _. refl }
  run-closed (o ∷ os) c w e =
      let (refused, closes, quiet) = perform-closed o c w e in
      let s = (perform t o (c, w)).1 in
      let rest = run-closed os s.0 s.1 closes in
      record {
        refused = (refused, rest.refused);
        state = rest.state;
        untouched = λ q. rest.untouched (ground (arith, q)) ∙ quiet (ground (arith, q));
      }

  close_in-closed :
      (s : ClientState) (c : Client) (w : W)
      → c.state ≡ s
      → (close_in t s (c, w)).1.0.state ≡ closed
  unfolding close_in marked of_client
  close_in-closed closed c w e = e
  close_in-closed opened c w e = refl
  close_in-closed unopened c w e = refl

  -- `close` and `__exit__` close, whatever the state and the transports.
  perform-ends :
      (o : Operation W) (c : Client) (w : W)
      → ends o ≡ true
      → (perform t o (c, w)).1.0.state ≡ closed
  unfolding perform leave close marked of_client
  perform-ends entering c w e = absurd (cc e)
  perform-ends leaving c w e = refl
  perform-ends closing c w e = close_in-closed c.state c w refl
  perform-ends (sending m) c w e = absurd (cc e)

  -- Whatever a client is and whatever its transports do, raise or not: behind a call of `close` or of
  -- `__exit__`, in any sequence of calls `__enter__` and `send` raise RuntimeError and `close`
  -- returns, the client stays closed, and but for the calls of `__exit__` the outside is left as it
  -- is.
  pub run-StaysClosed :
      (o : Operation W) (os : List (Operation W)) (c : Client) (w : W)
      → ends o ≡ true
      → StaysClosed os (perform t o (c, w)).1.1 (run t os (perform t o (c, w)).1)
  run-StaysClosed o os c w e =
      run-closed os (perform t o (c, w)).1.0 (perform t o (c, w)).1.1 (perform-ends o c w e)
