-- ===== src/Dict/Keys.antt =====
-- Keys stay distinct.
use httpxp.Prelude.{==_iff, Text, [], arith, not, refl, ◌&&◌, ◌==◌, ◌||◌, ◌∷◌, ◌≡◌, nat_eq, list_eq}
use httpxp.Dict.Defs.{Dict, has, put, without, update}
use httpxp.Dict.Laws.{IsDistinct}

module _ {ℓ} {V : Type ℓ} where
  pub has-put : (k j : Text) (v : V) (d : Dict V) → has j (put k v d) ≡ (k == j || has j d)
  unfolding has put
  has-put k j v [] = refl
  has-put k j v ((i, w) ∷ d) = ground (arith, ==_iff k j, ==_iff i k, ==_iff i j, has-put k j v d)

  pub has-without : (k j : Text) (d : Dict V) → has j (without k d) ≡ (not (k == j) && has j d)
  unfolding has without
  has-without k j [] = ground arith
  has-without k j ((i, w) ∷ d) =
      ground (arith, ==_iff k j, ==_iff i k, ==_iff i j, has-without k j d)

  pub IsDistinct-put : (k : Text) (v : V) (d : Dict V) → IsDistinct d → IsDistinct (put k v d)
  unfolding put IsDistinct has
  IsDistinct-put k v [] h = (refl, tt)
  IsDistinct-put k v ((i, w) ∷ d) (h, hs) =
      ground (arith, IsDistinct-put k v d hs, has-put k i v d, ==_iff k i, ==_iff i k)

  pub IsDistinct-without : (k : Text) (d : Dict V) → IsDistinct d → IsDistinct (without k d)
  unfolding without IsDistinct
  IsDistinct-without k [] h = tt
  IsDistinct-without k ((i, w) ∷ d) (h, hs) =
      ground (arith, IsDistinct-without k d hs, has-without k i d)

  pub IsDistinct-update : (d e : Dict V) → IsDistinct d → IsDistinct (update d e)
  unfolding update
  IsDistinct-update d [] h = h
  IsDistinct-update d ((k, v) ∷ e) h = IsDistinct-update (put k v d) e (IsDistinct-put k v d h)
