-- ===== src/Prelude/Split.antt =====
-- `split` and `join` are inverse to one another.
use Prim.Native.Nat.{ℕ}
use mathlib.Core.Path.{◌≡◌, refl, sym, subst, ap, ◌∙◌}
use mathlib.Core.Logic.{inl, inr}
use mathlib.Core.Bool.{true, false}
use mathlib.Core.List.{List, [], ◌∷◌, ◌++◌}
use native.Mathlib.Omega.{arith}
use httpxp.Prelude.Tests.{nat_beq_iff, nat_eq, nat_beq, Bool-cases}
use httpxp.Prelude.Lists.{mem, All}
use httpxp.Prelude.Str.{Text, split, join, onto_first}

-- `split` returns at least one part
split-cons : (sep : ℕ) (s : Text) → (w : Text) × (ws : List Text) × (split sep s ≡ w ∷ ws)
unfolding split
split-cons sep [] = ([], [], refl)
split-cons sep (c ∷ s) = elim (Bool-cases (nat_beq c sep)) [
  | inl e ↦ ([], split sep s, rw e)
  | inr e ↦ (let (w, ws, q) = split-cons sep s in (c ∷ w, ws, rw e (rw q)))
]

join-onto_first :
    (sep : Text) (c : ℕ) (w : Text) (ws : List Text)
    → join sep (onto_first c (w ∷ ws)) ≡ c ∷ join sep (w ∷ ws)
unfolding join
join-onto_first sep c w [] = refl
join-onto_first sep c w (v ∷ ws) = refl

join-nil_first :
    (sep : Text) (w : Text) (ws : List Text) → join sep ([] ∷ w ∷ ws) ≡ sep ++ join sep (w ∷ ws)
unfolding join
join-nil_first sep w ws = refl

split-at : (sep c : ℕ) (s : Text) → nat_beq c sep ≡ true → split sep (c ∷ s) ≡ [] ∷ split sep s
unfolding split
split-at sep c s h = rw h

split-other :
    (sep c : ℕ) (s : Text) → nat_beq c sep ≡ false → split sep (c ∷ s) ≡ onto_first c (split sep s)
unfolding split
split-other sep c s h = rw h

join-step :
    (sep c : ℕ) (s : Text)
    → join (sep ∷ []) (split sep s) ≡ s
    → join (sep ∷ []) (split sep (c ∷ s)) ≡ c ∷ s
join-step sep c s ih =
    let (w, ws, q) = split-cons sep s in
    elim (Bool-cases (nat_beq c sep)) [
      | inl e ↦
          (rw (split-at sep c s e, q, join-nil_first, ← q, ih)
            (ap (λ d. d ∷ s) (sym ((nat_beq_iff c sep).0 e))))
      | inr e ↦ rw (split-other sep c s e, q, join-onto_first, ← q, ih)
    ]

pub join-split : (sep : ℕ) (s : Text) → join (sep ∷ []) (split sep s) ≡ s
join-split sep [] = unfold split join in refl
join-split sep (c ∷ s) = join-step sep c s (join-split sep s)

-- a part holds no separator
pub split-parts : (sep : ℕ) (s : Text) → All (λ w. mem sep w ≡ false) (split sep s)
unfolding split
split-parts sep [] = (refl, tt)
split-parts sep (c ∷ s) =
    let (w, ws, q) = split-cons sep s in
    let (h, hs) = subst (All (λ v. mem sep v ≡ false)) q (split-parts sep s) in
    elim (Bool-cases (nat_beq c sep)) [
      | inl e ↦ rw e (refl, split-parts sep s)
      | inr e ↦ rw (e, q) (ground arith, hs)
    ]

pub mem-split : (sep c : ℕ) (s : Text) → mem c s ≡ false → All (λ w. mem c w ≡ false) (split sep s)
unfolding split
mem-split sep c [] h = (refl, tt)
mem-split sep c (d ∷ s) h =
    let (w, ws, q) = split-cons sep s in
    let (k, ks) = subst (All (λ v. mem c v ≡ false)) q (mem-split sep c s (ground arith)) in
    elim (Bool-cases (nat_beq d sep)) [
      | inl e ↦ rw (e, q) (refl, (k, ks))
      | inr e ↦ rw (e, q) (ground arith, ks)
    ]

split-append :
    (sep : ℕ) (w s : Text) → mem sep w ≡ false → split sep (w ++ sep ∷ s) ≡ w ∷ split sep s
unfolding split
split-append sep [] s h = ground arith
split-append sep (c ∷ w) s h = ground (arith, split-append sep w s)

split-whole : (sep : ℕ) (w : Text) → mem sep w ≡ false → split sep w ≡ w ∷ []
unfolding split
split-whole sep [] h = refl
split-whole sep (c ∷ w) h = ground (arith, split-whole sep w)

pub split-join :
    (sep : ℕ) (w : Text) (ws : List Text)
    → All (λ v. mem sep v ≡ false) (w ∷ ws)
    → split sep (join (sep ∷ []) (w ∷ ws)) ≡ w ∷ ws
unfolding join
split-join sep w [] (h, _) = split-whole sep w h
split-join sep w (v ∷ ws) (h, hs) =
    split-append sep w (join (sep ∷ []) (v ∷ ws)) h ∙ ap (λ t. w ∷ t) (split-join sep v ws hs)
