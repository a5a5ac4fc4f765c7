-- ===== src/Decoders/Chunker/Chunks.antt =====
-- Cutting a text into chunks.
use httpxp.Prelude.{
  List, [], ap, arith, drop, length, length-drop, refl, suc, take, zero, ℕ, ◌<◌, ◌∷◌, ◌≡◌, ◌≤◌,
}
use httpxp.Decoders.Chunker.{chunk_from, chunks}

chunk_from-fuel :
    (n f g : ℕ) (v : List ℕ)
    → length v ≤ f
    → length v ≤ g
    → chunk_from (suc n) f v ≡ chunk_from (suc n) g v
unfolding chunk_from
chunk_from-fuel n zero zero v h k = refl
chunk_from-fuel n zero (suc g) [] h k = refl
chunk_from-fuel n zero (suc g) (x ∷ v) h k = absurd (omega arith)
chunk_from-fuel n (suc f) zero [] h k = refl
chunk_from-fuel n (suc f) zero (x ∷ v) h k = absurd (omega arith)
chunk_from-fuel n (suc f) (suc g) [] h k = refl
chunk_from-fuel n (suc f) (suc g) (x ∷ v) h k =
    ap (λ t. take (suc n) (x ∷ v) ∷ t)
      (chunk_from-fuel n f g (drop n v) (omega (arith, length-drop n v))
        (omega (arith, length-drop n v)))

pub chunks-cons :
    (n : ℕ) (x : ℕ) (v : List ℕ)
    → chunks (suc n) (x ∷ v) ≡ take (suc n) (x ∷ v) ∷ chunks (suc n) (drop n v)
unfolding chunks chunk_from
chunks-cons n x v =
    ap (λ t. take (suc n) (x ∷ v) ∷ t)
      (chunk_from-fuel n (length v) (length (drop n v)) (drop n v) (omega (arith, length-drop n v))
        (omega arith))

pub chunks-nil : (n : ℕ) → chunks n [] ≡ []
unfolding chunks chunk_from
chunks-nil n = refl

-- Every chunk but the last is of the given length, and the last is not longer and not empty.
abbrev pub Sized : ℕ → List (List ℕ) → Type 0
Sized n [] = Unit
Sized n (c ∷ []) = (0 < length c) × (length c ≤ n)
Sized n (c ∷ d ∷ cs) = (length c ≡ n) × Sized n (d ∷ cs)
