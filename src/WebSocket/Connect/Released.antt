-- ===== src/WebSocket/Connect/Released.antt =====
-- A connection that is opened is returned or closed again.
use httpxp.Client.Authenticated.{ClientState, closed, opened, unopened}
use httpxp.Prelude.{All, List, Text, [], arith, refl, ℕ, ◌+◌, ◌∙◌, ◌∷◌, ◌≡◌, ◌≤◌}
use httpxp.Exceptions.Result.{ensure, Result, ok, err}
use httpxp.Client.Exec.{raise_behind, keep_result, M, continue}
use httpxp.Dict.{Dict}
use httpxp.Transports.Http.{OptionValue}
use httpxp.Urls.Url.{Url}
use httpxp.WebSocket.Connect.{
  built, config_of, parsed_url, ClientState, in_state, opened_by, connect, then_connect, prepare,
  prepared, type_error, connect_prepared, with_response, closing_flow, open_socket, announce,
  closing_socket, Opening, WsRequest, run_each,
}

-- Two counts of the world: the native sockets that were opened and those that were closed.
pub record Counts (W : Type 0) : Type 0 where
  pub opens : W → ℕ
  pub closes : W → ℕ

module _ {W : Type 0} (c : Counts W) where
  abbrev pub Kept : W → W → Type 0
  Kept v w = (c.opens w ≡ c.opens v) × (c.closes w ≡ c.closes v)

  abbrev pub Keeps : {A : Type 0} → M W A → Type 0
  Keeps m = (w : W) → Kept w (m w).1

  -- one socket more was opened, and none was closed
  abbrev pub IsLive : W → W → Type 0
  IsLive v w = (c.opens w ≡ c.opens v + 1) × (c.closes w ≡ c.closes v)

  abbrev pub Opened : {A : Type 0} → W → Result A × W → Type 0
  Opened v (ok _, w) = IsLive v w
  Opened v (err e, w) = Kept v w

  -- A result is a live socket. With an exception, at most one socket was opened, and as many were
  -- closed.
  abbrev pub Released : {A : Type 0} → W → Result A × W → Type 0
  Released v (ok _, w) = IsLive v w
  Released v (err e, w) =
      (c.opens w + c.closes v ≡ c.opens v + c.closes w) × (c.opens w ≤ c.opens v + 1)

  -- What the calls of the code do to the counts: opening adds a socket unless it raises, closing
  -- counts even if it raises, and nothing else opens or closes one. The constructor of the response
  -- and the closing of a flow do not raise.
  pub record IsCounted {N R : Type 0} (p : Opening W N R) : Type 0 where
    pub build_request : (u : Url) → Keeps (p.build_request u)
    pub build_flow : (q : WsRequest) → Keeps (p.build_flow q)
    pub first_request : (q : WsRequest) → Keeps (p.first_request q)
    pub close_flow : (w : W) → Kept w (p.close_flow w).1 × ((p.close_flow w).0 ≡ ok tt)
    pub request_hooks : (q : WsRequest) → All (λ hook. Keeps (hook q)) p.request_hooks
    pub websocket : (q : WsRequest) (d : Dict OptionValue) (w : W) → Opened w (p.websocket q d w)
    pub response_of : (n : N) (q : WsRequest) → (r : R) × (p.response_of n q ≡ ok r)
    pub extract_cookies : (r : R) → Keeps (p.extract_cookies r)
    pub response_hooks : (r : R) → All (λ hook. Keeps (hook r)) p.response_hooks
    pub close_socket :
        (n : N) (w : W)
        → (c.opens (p.close_socket n w).1 ≡ c.opens w)
          × (c.closes (p.close_socket n w).1 ≡ c.closes w + 1)

  Kept-trans : {u v w : W} → Kept u v → Kept v w → Kept u w
  Kept-trans (a, b) (d, e) = (d ∙ a, e ∙ b)

  -- the rest of an action behind a part that keeps the counts
  Released-continue :
      {A B : Type 0} (v : W) (o : Result A × W) (f : A → M W B)
      → Kept v o.1
      → ((a : A) (w : W) → Kept v w → Released v (f a w))
      → Released v (continue o f)
  Released-continue v (ok a, w) f k h = h a w k
  Released-continue v (err e, w) f k h = omega arith

  Opened-from : {A : Type 0} (v w : W) (o : Result A × W) → Kept v w → Opened w o → Opened v o
  Opened-from v w (ok _, u) k l = omega arith
  Opened-from v w (err e, u) k l = omega arith

  Released-from : {A : Type 0} (v w : W) (o : Result A × W) → Kept v w → Released w o → Released v o
  Released-from v w (ok _, u) k l = omega arith
  Released-from v w (err e, u) k l = omega arith

  Released-keep_result :
      {A : Type 0} (v w : W) (r : Result A) (o : Result (Unit {0}) × W)
      → o.0 ≡ ok tt
      → Kept w o.1
      → Released v (r, w)
      → Released v (keep_result r o)
  unfolding keep_result
  Released-keep_result v w (ok _) (ok _, u) e k l = omega arith
  Released-keep_result v w (err _) (ok _, u) e k l = omega arith
  Released-keep_result v w r (err f, u) e k l = absurd (cc e)

  Kept-continue :
      {A B : Type 0} (v : W) (o : Result A × W) (f : A → M W B)
      → Kept v o.1
      → ((a : A) (w : W) → Kept v w → Kept v (f a w).1)
      → Kept v (continue o f).1
  Kept-continue v (ok a, w) f k h = h a w k
  Kept-continue v (err e, w) f k h = k

  Keeps-run_each :
      {A : Type 0} (hooks : List (A → M W (Unit {0}))) (a : A)
      → All (λ hook. Keeps (hook a)) hooks
      → Keeps (run_each hooks a)
  unfolding run_each
  Keeps-run_each [] a h w = (refl, refl)
  Keeps-run_each (hook ∷ hooks) a (h, hs) w =
      Kept-continue w (hook a w) (λ _. run_each hooks a) (h w)
        (λ _ v k. Kept-trans k (Keeps-run_each hooks a hs v))

  module _ {N R : Type 0} (p : Opening W N R) (h : IsCounted p) where
    -- behind the opening, an exception closes the socket
    closing_socket-Released :
        (v : W) (n : N) (o : Result (N × R) × W) → IsLive v o.1 → Released v (closing_socket p n o)
    unfolding closing_socket raise_behind
    closing_socket-Released v n (ok s, w) l = l
    closing_socket-Released v n (err e, w) l = of_close (p.close_socket n w) (h.close_socket n w)
      where
        of_close :
            (o : Result (Unit {0}) × W)
            → (c.opens o.1 ≡ c.opens w) × (c.closes o.1 ≡ c.closes w + 1)
            → Released v (raise_behind {A = N × R} e o)
        of_close (ok _, u) k = omega arith
        of_close (err f, u) k = omega arith

    announce-Released : (v w : W) (n : N) (r : R) → IsLive v w → Released v (announce p n r w)
    unfolding announce
    announce-Released v w n r (a, b) =
        let (d, e) = Kept-continue w (p.extract_cookies r w) _ (h.extract_cookies r w) (λ _ u k.
          Kept-continue w (run_each p.response_hooks r u) _
            (Kept-trans k (Keeps-run_each p.response_hooks r (h.response_hooks r) u))
            (λ _ t l. l)) in
        closing_socket-Released v n _ (d ∙ a, e ∙ b)

    with_response-Released :
        (v : W) (q : WsRequest) (o : Result N × W)
        → Opened v o
        → Released v (continue o (with_response p q))
    unfolding with_response
    with_response-Released v q (ok n, w) l =
        let (r, e) = h.response_of n q in rw e (announce-Released v w n r l)
    with_response-Released v q (err e, w) k = omega arith

    open_socket-Released :
        (q : WsRequest) (d : Dict OptionValue) (v : W) → Released v (open_socket p q d v)
    unfolding open_socket
    open_socket-Released q d v =
        Released-continue v (p.first_request q v) _ (h.first_request q v) λ next u k.
          Released-continue v (run_each p.request_hooks next u) _
            (Kept-trans k (Keeps-run_each p.request_hooks next (h.request_hooks next) u))
            λ _ t l.
              Released-continue v (ensure (p.is_http next.url) type_error, t) _ l
                λ _ s m.
                  with_response-Released v next (p.websocket next d s)
                    (Opened-from v s _ m (h.websocket next d s))

    closing_flow-Released :
        (v : W) (o : Result (N × R) × W) → Released v o → Released v (closing_flow p o)
    unfolding closing_flow
    closing_flow-Released v (r, w) k =
        let (kept, quiet) = h.close_flow w in
        Released-keep_result v w r (p.close_flow w) quiet kept k

    connect_prepared-Released :
        (v : W) (a : WsRequest × Dict OptionValue) → Released v (connect_prepared p a v)
    unfolding connect_prepared
    connect_prepared-Released v (q, d) =
        Released-continue v (p.build_flow q v) _ (h.build_flow q v)
          λ _ w k. Released-from v w _ k (closing_flow-Released w _ (open_socket-Released q d w))

    built-Keeps : (d : Dict OptionValue) (u : Url) → Keeps (built p d u)
    unfolding built
    built-Keeps d u v =
        Kept-continue v (p.build_request u v) (λ q w. (ok (q, config_of q d), w))
          (h.build_request u v) (λ _ _ l. l)

    prepared-Keeps : (url : Text) (d : Dict OptionValue) → Keeps (prepared p url d)
    unfolding prepared
    prepared-Keeps url d v =
        Kept-continue v (parsed_url p url, v) (built p d) (refl, refl)
          λ u w k. Kept-trans k (built-Keeps d u w)

    prepare-Keeps :
        (url : Text) (d : Dict OptionValue) (state : ClientState) (v : W)
        → Kept v (prepare p url d (state, v)).1.1
    unfolding prepare opened_by
    prepare-Keeps url d closed v = (refl, refl)
    prepare-Keeps url d opened v = prepared-Keeps url d v
    prepare-Keeps url d unopened v = prepared-Keeps url d v

    then_connect-Released :
        (v : W) (o : Result (WsRequest × Dict OptionValue) × (ClientState × W))
        → Kept v o.1.1
        → Released v ((then_connect p o).0, (then_connect p o).1.1)
    unfolding then_connect in_state
    then_connect-Released v (err e, (state, w)) k = omega arith
    then_connect-Released v (ok a, (state, w)) k =
        Released-from v w _ k (connect_prepared-Released w a)

    -- If only the native side opens sockets, closing counts even where it raises, and neither the
    -- constructor of a response nor the closing of a flow raises, then whatever the state of the
    -- client, the hooks, the cookies and the transport do: a connection that is returned is one more
    -- open socket, and where an exception is raised, at most one socket was opened and every
    -- opened one is closed again.
    pub connect-Released :
        (url : Text) (d : Dict OptionValue) (state : ClientState) (v : W)
        → Released v ((connect p url d (state, v)).0, (connect p url d (state, v)).1.1)
    unfolding connect
    connect-Released url d state v = then_connect-Released v _ (prepare-Keeps url d state v)
