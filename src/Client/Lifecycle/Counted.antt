-- ===== src/Client/Lifecycle/Counted.antt =====
-- How often a transport of a client is called.
use httpxp.Prelude.{
  List, Option, [], arith, if◌then◌else◌, none, refl, some, ℕ, ◌+◌, ◌==◌, ◌∷◌, ◌≡◌, nat_eq,
}
use httpxp.Exceptions.Result.{Result, ok, err}
use httpxp.Client.Authenticated.{ClientState, closed, opened, opened, unopened}
use httpxp.Client.Exec.{M, continue}
use httpxp.Client.Lifecycle.{
  Client, TransportMethods, each_mount, each_transport, enter, enter_in, leave, marked, of_client,
}

-- what `k` gives for each transport of a client
abbrev pub tally_mounts : (ℕ → ℕ) → List (Option ℕ) → ℕ
tally_mounts k [] = 0
tally_mounts k (none ∷ mounts) = tally_mounts k mounts
tally_mounts k (some n ∷ mounts) = k n + tally_mounts k mounts

abbrev pub tally : (ℕ → ℕ) → Client → ℕ
tally k c = k c.transport + tally_mounts k c.mounts

-- one for the given transport, and nothing for the others
abbrev pub one : ℕ → ℕ → ℕ
one i n = if n == i then 1 else 0

module _ {W : Type 0} (i : ℕ) (left : W → ℕ) where
  -- A call that does not raise adds `k` to the count.
  abbrev pub Adds : ℕ → W → Result (Unit {0}) × W → Type 0
  Adds k w o = (o.0 ≡ ok tt) × (left o.1 ≡ left w + k)

  Adds-continue :
      (m n : ℕ) (w : W) (o : Result (Unit {0}) × W) (rest : W → Result (Unit {0}) × W)
      → Adds m w o
      → ((v : W) → Adds n v (rest v))
      → Adds (m + n) w (continue o (λ _. rest))
  Adds-continue m n w (ok _, v) rest (e, a) r = let (d, b) = r v in (d, omega arith)
  Adds-continue m n w (err _, v) rest (e, a) r = absurd (cc e)

  module _ (k : ℕ → ℕ) (f : ℕ → M W (Unit {0})) (h : (n : ℕ) (w : W) → Adds (k n) w (f n w)) where
    Adds-each_mount :
        (mounts : List (Option ℕ)) (w : W) → Adds (tally_mounts k mounts) w (each_mount f mounts w)
    unfolding each_mount
    Adds-each_mount [] w = (refl, omega arith)
    Adds-each_mount (none ∷ mounts) w = Adds-each_mount mounts w
    Adds-each_mount (some n ∷ mounts) w =
        Adds-continue (k n) (tally_mounts k mounts) w (f n w) (each_mount f mounts) (h n w)
          (Adds-each_mount mounts)

    pub Adds-each_transport : (c : Client) (w : W) → Adds (tally k c) w (each_transport f c w)
    unfolding each_transport
    Adds-each_transport c w =
        Adds-continue (k c.transport) (tally_mounts k c.mounts) w (f c.transport w)
          (each_mount f c.mounts) (h c.transport w) (Adds-each_mount c.mounts)

  tally-zero : (mounts : List (Option ℕ)) → tally_mounts (λ _. 0) mounts ≡ 0
  tally-zero [] = refl
  tally-zero (none ∷ mounts) = tally-zero mounts
  tally-zero (some _ ∷ mounts) = omega (arith, tally-zero mounts)

  -- Entering and leaving transports does not raise; entering is not counted, and leaving is for the
  -- given transport.
  pub record IsCounted (t : TransportMethods W) : Type 0 where
    pub enter : (n : ℕ) (w : W) → Adds 0 w (t.enter n w)
    pub leave : (n : ℕ) (w : W) → Adds (one i n) w (t.leave n w)

  module _ (t : TransportMethods W) (h : IsCounted t) where
    enter_in-new :
        (c : Client) (w : W) (s : ClientState)
        → s ≡ unopened
        → ((enter_in t s (c, w)).0 ≡ ok tt)
          × ((enter_in t s (c, w)).1.0 ≡ record c { state = opened })
          × (left (enter_in t s (c, w)).1.1 ≡ left w)
    unfolding enter_in marked of_client
    enter_in-new c w unopened e =
        let (done, counted) = Adds-each_transport (λ _. 0) t.enter h.enter c w in
        (done, refl, omega (arith, tally-zero c.mounts))
    enter_in-new c w opened e = absurd (cc e)
    enter_in-new c w closed e = absurd (cc e)

    -- a new client is entered, with nothing counted
    pub enter-new :
        (c : Client) (w : W)
        → c.state ≡ unopened
        → ((enter t (c, w)).0 ≡ ok tt)
          × ((enter t (c, w)).1.0 ≡ record c { state = opened })
          × (left (enter t (c, w)).1.1 ≡ left w)
    unfolding enter enter_in marked of_client
    enter-new c w e = enter_in-new c w c.state e

    -- a client is left, with one for each place of the given transport
    pub leave-counts :
        (c : Client) (w : W)
        → ((leave t (c, w)).0 ≡ ok tt) × (left (leave t (c, w)).1.1 ≡ left w + tally (one i) c)
    unfolding leave marked of_client
    leave-counts c w = Adds-each_transport (one i) t.leave h.leave c w
