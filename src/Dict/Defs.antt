-- ===== src/Dict/Defs.antt =====
-- The operations of a dictionary.
use httpxp.Prelude.{
  Bool, List, Option, Text, [], false, if◌then◌else◌, none, some, ◌==◌, ◌||◌, ◌∷◌, nat_eq, list_eq,
}

abbrev pub Dict {ℓ} : Type ℓ → Type ℓ
Dict V = List (Text × V)

module _ {ℓ} {V : Type ℓ} where
  -- `d.get(k)`
  unfoldable pub lookup : Text → Dict V → Option V
  lookup k [] = none
  lookup k ((j, v) ∷ d) = if j == k then some v else lookup k d

  -- `k in d`
  unfoldable pub has : Text → Dict V → Bool
  has k [] = false
  has k ((j, v) ∷ d) = j == k || has k d

  -- `d[k] = v`: an old key keeps its place
  unfoldable pub put : Text → V → Dict V → Dict V
  put k v [] = (k, v) ∷ []
  put k v ((j, w) ∷ d) = if j == k then (j, v) ∷ d else (j, w) ∷ put k v d

  -- `d.pop(k, None)`
  unfoldable pub without : Text → Dict V → Dict V
  without k [] = []
  without k ((j, w) ∷ d) = let rest = without k d in if j == k then rest else (j, w) ∷ rest

  -- `{**d, **e}`
  unfoldable pub update : Dict V → Dict V → Dict V
  update d [] = d
  update d ((k, v) ∷ e) = update (put k v d) e

  -- `list(d)`
  unfoldable pub keys : Dict V → List Text
  keys [] = []
  keys ((k, v) ∷ d) = k ∷ keys d

  -- `d.setdefault(k, v)`, whose value is not used
  unfoldable pub set_default : Text → V → Dict V → Dict V
  unfolding has put
  set_default k v d = if has k d then d else put k v d
