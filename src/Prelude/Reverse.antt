-- ===== src/Prelude/Reverse.antt =====
-- `strip` from the right, by way of `reverse`.
use mathlib.Core.Path.{◌≡◌, refl, ◌∙◌}
use mathlib.Core.Bool.{Bool, false, ◌&&◌}
use mathlib.Core.List.{List, [], ◌∷◌, ◌++◌, reverse, reverse-cons}
use native.Mathlib.Omega.{arith}
use httpxp.Prelude.Lists.{all, is_nil}
use httpxp.Prelude.Str.{Text, lstrip, rstrip}
use Prim.Native.Nat.{ℕ}

pub all-append {ℓ} :
    {A : Type ℓ} (p : A → Bool) (xs ys : List A) → all p (xs ++ ys) ≡ (all p xs && all p ys)
all-append p [] ys = refl
all-append p (x ∷ xs) ys = ground (arith, all-append p xs ys)

pub all-reverse {ℓ} : {A : Type ℓ} (p : A → Bool) (xs : List A) → all p (reverse xs) ≡ all p xs
all-reverse p [] = refl
all-reverse p (x ∷ xs) =
    rw reverse-cons (ground (arith, all-append p (reverse xs) (x ∷ []), all-reverse p xs))

is_nil-append {ℓ} : {A : Type ℓ} (xs : List A) (x : A) → is_nil (xs ++ x ∷ []) ≡ false
is_nil-append [] x = refl
is_nil-append (_ ∷ _) x = refl

is_nil-reverse {ℓ} : {A : Type ℓ} (xs : List A) → is_nil (reverse xs) ≡ is_nil xs
is_nil-reverse [] = refl
is_nil-reverse (x ∷ xs) = rw reverse-cons (is_nil-append (reverse xs) x)

is_nil-lstrip : (p : ℕ → Bool) (s : Text) → is_nil (lstrip p s) ≡ all p s
unfolding lstrip
is_nil-lstrip p [] = refl
is_nil-lstrip p (c ∷ s) = ground (arith, is_nil-lstrip p s)

-- Nothing is left exactly when every character is stripped.
pub is_nil-rstrip : (p : ℕ → Bool) (s : Text) → is_nil (rstrip p s) ≡ all p s
unfolding rstrip
is_nil-rstrip p s =
    is_nil-reverse (lstrip p (reverse s)) ∙ is_nil-lstrip p (reverse s) ∙ all-reverse p s
