-- ===== src/Dict/Laws.antt =====
-- What a lookup finds after each operation.
use httpxp.Prelude.{
  ==_iff, Text, [], arith, false, if◌then◌else◌, none, refl, some, true, ◌==◌, ◌∷◌, ◌≡◌, nat_eq,
  list_eq,
}
use httpxp.Dict.Defs.{Dict, lookup, has, put, without, update}

module _ {ℓ} {V : Type ℓ} where
  pub lookup-put :
      (k j : Text) (v : V) (d : Dict V)
      → lookup j (put k v d) ≡ (if k == j then some v else lookup j d)
  unfolding lookup put
  lookup-put k j v [] = refl
  lookup-put k j v ((i, w) ∷ d) =
      ground (arith, ==_iff k j, ==_iff i k, ==_iff i j, lookup-put k j v d)

  pub lookup-without :
      (k j : Text) (d : Dict V) → lookup j (without k d) ≡ (if k == j then none else lookup j d)
  unfolding lookup without
  lookup-without k j [] = ground arith
  lookup-without k j ((i, w) ∷ d) =
      ground (arith, ==_iff k j, ==_iff i k, ==_iff i j, lookup-without k j d)

  pub has-eq-lookup :
      (k : Text) (d : Dict V) → has k d ≡ elim (lookup k d) [ none ↦ false | some _ ↦ true ]
  unfolding lookup has
  has-eq-lookup k [] = refl
  has-eq-lookup k ((j, v) ∷ d) = ground (arith, has-eq-lookup k d)

  pub lookup-of_not_has : (k : Text) (d : Dict V) → has k d ≡ false → lookup k d ≡ none
  unfolding lookup has
  lookup-of_not_has k [] h = refl
  lookup-of_not_has k ((j, v) ∷ d) h = ground (arith, lookup-of_not_has k d)

  -- the keys of the second dictionary stand once
  unfoldable pub IsDistinct : Dict V → Type 0
  IsDistinct [] = Unit
  IsDistinct ((k, v) ∷ d) = (has k d ≡ false) × IsDistinct d

  pub lookup-update :
      (j : Text) (d e : Dict V)
      → IsDistinct e
      → lookup j (update d e) ≡ elim (lookup j e) [ none ↦ lookup j d | some v ↦ some v ]
  unfolding lookup update IsDistinct
  lookup-update j d [] h = refl
  lookup-update j d ((k, v) ∷ e) (h, hs) = ground (
    arith,
    lookup-update j (put k v d) e hs,
    lookup-put k j v d,
    lookup-of_not_has k e h,
    ==_iff k j,
  )
