-- ===== src/Decoders/Chunker/Resume.antt =====
-- Cutting can stop at the last chunk and go on from there.
use httpxp.Prelude.{
  List, [], ap, append-nil, arith, concat, drop, inl, inr, length, length-drop, refl, subst, suc,
  sym, take, take-append-drop, zero, ℕ, ◌++◌, ◌∙◌, ◌∷◌, ◌≡◌, ◌≤◌, ◌⊎◌,
}
use httpxp.Decoders.Chunker.{chunks, last_of, but_last}
use httpxp.Decoders.Chunker.Chunks.{chunks-cons, chunks-nil, Sized}

pub take-append : (n : ℕ) (v w : List ℕ) → n ≤ length v → take n (v ++ w) ≡ take n v
take-append zero v w h = refl
take-append (suc n) [] w h = absurd (omega arith)
take-append (suc n) (x ∷ v) w h = ap (λ t. x ∷ t) (take-append n v w (omega arith))

pub drop-append : (n : ℕ) (v w : List ℕ) → n ≤ length v → drop n (v ++ w) ≡ drop n v ++ w
drop-append zero v w h = refl
drop-append (suc n) [] w h = absurd (omega arith)
drop-append (suc n) (x ∷ v) w h = drop-append n v w (omega arith)

pub take-all : (n : ℕ) (v : List ℕ) → drop n v ≡ [] → take n v ≡ v
take-all n v h =
    sym (append-nil (take n v)) ∙ ap (λ t. take n v ++ t) (sym h) ∙ take-append-drop n v

pub length-take : (n : ℕ) (v : List ℕ) → n ≤ length v → length (take n v) ≡ n
length-take zero v h = refl
length-take (suc n) [] h = absurd (omega arith)
length-take (suc n) (x ∷ v) h = ap suc (length-take n v (omega arith))

List-cases : (v : List ℕ) → (v ≡ []) ⊎ ((y : ℕ) × (u : List ℕ) × (v ≡ y ∷ u))
List-cases [] = inl refl
List-cases (y ∷ u) = inr (y, u, refl)

but_last-cons :
    (c : List ℕ) (cs : List (List ℕ)) (d : List ℕ) (ds : List (List ℕ))
    → cs ≡ d ∷ ds
    → but_last (c ∷ cs) ≡ c ∷ but_last cs
unfolding but_last
but_last-cons c cs d ds e = rw e

last_of-cons :
    (c : List ℕ) (cs : List (List ℕ)) (d : List ℕ) (ds : List (List ℕ))
    → cs ≡ d ∷ ds
    → last_of (c ∷ cs) ≡ last_of cs
unfolding last_of
last_of-cons c cs d ds e = rw e

Sized-cons :
    (n : ℕ) (c : List ℕ) (cs : List (List ℕ)) (d : List ℕ) (ds : List (List ℕ))
    → cs ≡ d ∷ ds
    → length c ≡ n
    → Sized n cs
    → Sized n (c ∷ cs)
Sized-cons n c cs d ds e h s = rw e (h, subst (Sized n) e s)

-- The last chunk of a text, with what comes behind the text, is cut as if it stood alone.
pub record Resumes (n : ℕ) (v w : List ℕ) : Type 0 where
  pub resumed : chunks n (v ++ w) ≡ but_last (chunks n v) ++ chunks n (last_of (chunks n v) ++ w)
  pub whole : but_last (chunks n v) ++ last_of (chunks n v) ∷ [] ≡ chunks n v
  pub short : length (last_of (chunks n v)) ≤ n
  pub sized : Sized n (chunks n v)
  pub same : concat (chunks n v) ≡ v

Resumes-short : (m x : ℕ) (v w : List ℕ) → drop m v ≡ [] → Resumes (suc m) (x ∷ v) w
Resumes-short m x v w h =
    let e : chunks (suc m) (x ∷ v) ≡ (x ∷ v) ∷ [] =
      chunks-cons m x v
      ∙ ap (λ t. (x ∷ take m v) ∷ chunks (suc m) t) h
      ∙ ap (λ t. (x ∷ take m v) ∷ t) (chunks-nil (suc m))
      ∙ ap (λ t. (x ∷ t) ∷ []) (take-all m v h) in
    let b : length v ≤ m = omega (arith, length-drop m v, ap (length {A = ℕ}) h) in
    unfold but_last last_of in
    record {
      resumed = rw e;
      whole = rw e;
      short = rw e (omega arith);
      sized = rw e (omega arith, omega arith);
      same = rw e (append-nil _);
    }

Resumes-long :
    (m x : ℕ) (v w : List ℕ) (y : ℕ) (u : List ℕ)
    → drop m v ≡ y ∷ u
    → Resumes (suc m) (y ∷ u) w
    → Resumes (suc m) (x ∷ v) w
Resumes-long m x v w y u h r =
    let cs = chunks (suc m) (y ∷ u) in
    let e : chunks (suc m) (x ∷ v) ≡ (x ∷ take m v) ∷ cs =
      chunks-cons m x v ∙ ap (λ t. (x ∷ take m v) ∷ chunks (suc m) t) h in
    let b : suc m ≤ length v = omega (arith, length-drop m v, ap (length {A = ℕ}) h) in
    let o : chunks (suc m) (x ∷ (v ++ w)) ≡ (x ∷ take m v) ∷ chunks (suc m) (y ∷ (u ++ w)) =
      chunks-cons m x (v ++ w)
      ∙ ap (λ t. (x ∷ t) ∷ chunks (suc m) (drop m (v ++ w))) (take-append m v w (omega arith))
      ∙ ap (λ t. (x ∷ take m v) ∷ chunks (suc m) t)
          (drop-append m v w (omega arith) ∙ ap (λ t. t ++ w) h) in
    let c = chunks-cons m y u in
    record {
      resumed =
          o
          ∙ ap (λ t. (x ∷ take m v) ∷ t) r.resumed
          ∙ rw (e, but_last-cons (x ∷ take m v) cs _ _ c, last_of-cons (x ∷ take m v) cs _ _ c);
      whole =
          rw (e, but_last-cons (x ∷ take m v) cs _ _ c, last_of-cons (x ∷ take m v) cs _ _ c)
            (ap (λ t. (x ∷ take m v) ∷ t) r.whole);
      short = rw (e, last_of-cons (x ∷ take m v) cs _ _ c) r.short;
      sized = rw e (
          Sized-cons (suc m) (x ∷ take m v) cs _ _ c (ap suc (length-take m v (omega arith)))
            r.sized);
      same = rw (e, r.same, ← h) (ap (λ t. x ∷ t) (take-append-drop m v));
    }

drop-nil : (n : ℕ) → drop {A = ℕ} n [] ≡ []
drop-nil zero = refl
drop-nil (suc n) = refl

Resumes-fuel : (m f x : ℕ) (v w : List ℕ) → length v ≤ f → Resumes (suc m) (x ∷ v) w
Resumes-fuel m zero x [] w h = Resumes-short m x [] w (drop-nil m)
Resumes-fuel m zero x (y ∷ v) w h = absurd (omega arith)
Resumes-fuel m (suc f) x v w h = elim (List-cases (drop m v)) [
  | inl e ↦ Resumes-short m x v w e
  | inr (y, u, e) ↦
      Resumes-long m x v w y u e
        (Resumes-fuel m f y u w (omega (arith, length-drop m v, ap (length {A = ℕ}) e)))
]

-- A text that is not empty can be cut up to its last chunk, which begins the cutting of the rest.
pub chunks-Resumes : (m x : ℕ) (v w : List ℕ) → Resumes (suc m) (x ∷ v) w
chunks-Resumes m x v w = Resumes-fuel m (length v) x v w (omega arith)
