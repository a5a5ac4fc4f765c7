-- ===== src/Dict/Append.antt =====
-- Dictionaries that are built from left to right.
use httpxp.Prelude.{==_iff, Text, [], arith, false, refl, ◌++◌, ◌||◌, ◌∷◌, ◌≡◌, nat_eq, list_eq}
use httpxp.Dict.Defs.{Dict, lookup, has, put}
use httpxp.Dict.Laws.{IsDistinct}

module _ {ℓ} {V : Type ℓ} where
  pub put-append :
      (k : Text) (v : V) (d e : Dict V) → has k d ≡ false → put k v (d ++ e) ≡ d ++ put k v e
  unfolding has put
  put-append k v [] e h = refl
  put-append k v ((j, w) ∷ d) e h = ground (arith, put-append k v d e)

  pub put-fresh : (k : Text) (v : V) (d : Dict V) → has k d ≡ false → put k v d ≡ d ++ (k, v) ∷ []
  unfolding has put
  put-fresh k v [] h = refl
  put-fresh k v ((j, w) ∷ d) h = ground (arith, put-fresh k v d)

  pub lookup-append : (k : Text) (d e : Dict V) → has k d ≡ false → lookup k (d ++ e) ≡ lookup k e
  unfolding has lookup
  lookup-append k [] e h = refl
  lookup-append k ((j, w) ∷ d) e h = ground (arith, lookup-append k d e)

  has-append : (k : Text) (d e : Dict V) → has k (d ++ e) ≡ (has k d || has k e)
  unfolding has
  has-append k [] e = refl
  has-append k ((j, w) ∷ d) e = ground (arith, has-append k d e)

  pub fresh-of_IsDistinct :
      (k : Text) (v : V) (d e : Dict V) → IsDistinct (d ++ (k, v) ∷ e) → has k d ≡ false
  unfolding has IsDistinct
  fresh-of_IsDistinct k v [] e h = refl
  fresh-of_IsDistinct k v ((j, w) ∷ d) e (h, hs) =
      ground
        (arith, fresh-of_IsDistinct k v d e hs, has-append j d ((k, v) ∷ e), ==_iff k j, ==_iff j k)
