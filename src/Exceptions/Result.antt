-- ===== src/Exceptions/Result.antt =====
-- The result of code that may raise: a value, or the class of the exception.
use httpxp.Prelude.{Bool, false, refl, true, ◌≡◌}
use httpxp.Exceptions.{Exception}

pub data Result {ℓ} (A : Type ℓ) : Type ℓ where
  ok : A → Result A
  err : Exception → Result A

infixl 5 ◌>>=◌
abbrev pub ◌>>=◌ {κ ℓ} : {B : Type κ} {A : Type ℓ} → Result A → (A → Result B) → Result B
err e >>= k = err e
ok a >>= k = k a

-- `if not test: raise e`
abbrev pub ensure : Bool → Exception → Result (Unit {0})
ensure false e = err e
ensure true e = ok tt

infixl 5 ◌>>◌
abbrev pub ◌>>◌ {κ} : {B : Type κ} → Result (Unit {0}) → Result B → Result B
first >> second = first >>= λ _. second

-- A result that is a value was one before the second part, which gave it.
pub ok-of_bind :
    {A B : Type 0} (r : Result A) (k : A → Result B) (b : B)
    → (r >>= k) ≡ ok b
    → (a : A) × (r ≡ ok a) × (k a ≡ ok b)
ok-of_bind (ok a) k b h = (a, refl, h)
ok-of_bind (err e) k b h = absurd (cc h)

pub ok-inj : {A : Type 0} {a b : A} → ok a ≡ ok b → a ≡ b
ok-inj h = cc h
