-- ===== src/Client/Lifecycle.antt =====
-- Opening and closing `Client` of httpxp/_client.py: the states that its methods test and set, and
-- the calls that they pass on to its transports. A transport stands as a number.
mod Closed
pub mod Counted
mod Tests
use httpxp.Prelude.{List, Option, [], none, some, ℕ, ◌∷◌}
use httpxp.Exceptions.{runtime_error}
use httpxp.Exceptions.Result.{Result, ok, err}
use httpxp.Client.Authenticated.{ClientState, closed, opened, unopened}
use httpxp.Client.Exec.{M, pure, ◌>>=◌, ◌>>◌}

-- the methods of a transport
pub record TransportMethods (W : Type 0) : Type 0 where
  pub enter : ℕ → M W (Unit {0})
  pub leave : ℕ → M W (Unit {0})
  pub close : ℕ → M W (Unit {0})

-- the fields of a client: its transport, and those of its mounts
pub record Client : Type 0 where
  pub state : ClientState
  pub transport : ℕ
  pub mounts : List (Option ℕ)

-- a call of a method; the last is `send`, with what it does on the outside
pub data Operation (W : Type 0) : Type 0 where
  entering leaving closing : Operation W
  sending : M W (Unit {0}) → Operation W

module _ {W : Type 0} where
  -- `for transport in self._mounts.values(): if transport is not None: f(transport)`
  each_mount : (ℕ → M W (Unit {0})) → List (Option ℕ) → M W (Unit {0})
  each_mount f [] = pure tt
  each_mount f (none ∷ mounts) = each_mount f mounts
  each_mount f (some transport ∷ mounts) = do f transport; each_mount f mounts

  pub each_transport : (ℕ → M W (Unit {0})) → Client → M W (Unit {0})
  each_transport f c = do f c.transport; each_mount f c.mounts

  pub of_client : {A : Type 0} → Client → Result A × W → Result A × (Client × W)
  of_client c (r, w) = (r, (c, w))

  -- The client is marked before anything else is done.
  marked : {A : Type 0} → ClientState → M W A → M (Client × W) A
  marked state m (c, w) = of_client (record c { state = state }) (m w)

  close_in : TransportMethods W → ClientState → M (Client × W) (Unit {0})
  close_in t closed (c, w) = (ok tt, (c, w))
  close_in t opened (c, w) = marked closed (each_transport t.close c) (c, w)
  close_in t unopened (c, w) = marked closed (each_transport t.close c) (c, w)

  pub close : TransportMethods W → M (Client × W) (Unit {0})
  close t (c, w) = close_in t c.state (c, w)

  enter_in : TransportMethods W → ClientState → M (Client × W) (Unit {0})
  enter_in t closed s = (err runtime_error, s)
  enter_in t opened s = (err runtime_error, s)
  enter_in t unopened (c, w) = marked opened (each_transport t.enter c) (c, w)

  -- `__enter__`
  pub enter : TransportMethods W → M (Client × W) (Unit {0})
  enter t (c, w) = enter_in t c.state (c, w)

  -- `__exit__`
  pub leave : TransportMethods W → M (Client × W) (Unit {0})
  leave t (c, w) = marked closed (each_transport t.leave c) (c, w)

  use_in : {A : Type 0} → M W A → ClientState → M (Client × W) A
  use_in m closed s = (err runtime_error, s)
  use_in m opened s = marked opened m s
  use_in m unopened s = marked opened m s

  -- the beginning of `send`, with what it does behind it
  pub used : {A : Type 0} → M W A → M (Client × W) A
  used m (c, w) = use_in m c.state (c, w)

  pub perform : TransportMethods W → Operation W → M (Client × W) (Unit {0})
  perform t entering = enter t
  perform t leaving = leave t
  perform t closing = close t
  perform t (sending m) = used m

  -- calls one after the other, where an exception of one does not keep the next from being made
  pub run :
      TransportMethods W → List (Operation W) → Client × W → List (Result (Unit {0})) × (Client × W)
  run t [] s = ([], s)
  run t (o ∷ os) s = let (rs, s') = run t os (perform t o s).1 in ((perform t o s).0 ∷ rs, s')
