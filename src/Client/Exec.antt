-- ===== src/Client/Exec.antt =====
-- Actions of the client on the outside world: they may raise, and the world is kept either way.
use httpxp.Exceptions.{Exception}
use httpxp.Exceptions.Result.{Result, ok, err}

abbrev pub M : Type 0 → Type 0 → Type 0
M W A = W → Result A × W

module _ {W : Type 0} where
  abbrev pub continue : {A B : Type 0} → Result A × W → (A → M W B) → Result B × W
  continue (ok a, w) f = f a w
  continue (err e, w) f = (err e, w)

  infixl 5 ◌>>=◌ ◌>>◌
  abbrev pub ◌>>=◌ : {A B : Type 0} → M W A → (A → M W B) → M W B
  ◌>>=◌ m f w = continue (m w) f

  abbrev pub ◌>>◌ : {A B : Type 0} → M W A → M W B → M W B
  ◌>>◌ m k w = continue (m w) (λ _. k)

  abbrev pub pure : {A : Type 0} → A → M W A
  pure a w = (ok a, w)

  abbrev pub raise : {A : Type 0} → Exception → M W A
  raise e w = (err e, w)

  abbrev pub lift : {A : Type 0} → Result A → M W A
  lift r w = (r, w)

  -- `except BaseException as exc: cleanup; raise exc`
  abbrev pub cleaned : {A : Type 0} → Result A × W → (W → W) → Result A × W
  cleaned (ok a, w) f = (ok a, w)
  cleaned (err e, w) f = (err e, f w)

  -- `raise` behind a clean-up, which may itself raise
  unfoldable pub raise_behind : {A : Type 0} → Exception → Result (Unit {0}) × W → Result A × W
  raise_behind e (ok _, w) = (err e, w)
  raise_behind e (err f, w) = (err f, w)

  -- the end of a `finally` block
  unfoldable pub keep_result : {A : Type 0} → Result A → Result (Unit {0}) × W → Result A × W
  keep_result r (ok _, w) = (r, w)
  keep_result r (err f, w) = (err f, w)
