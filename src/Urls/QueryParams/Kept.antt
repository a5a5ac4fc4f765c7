-- ===== src/Urls/QueryParams/Kept.antt =====
-- The methods keep each name once with a value, so that a lookup finds one.
use httpxp.Prelude.{
  Bool-cases, List, Option, Text, [], arith, false, inl, inr, refl, some, true, ◌==◌, ◌∷◌, ◌≡◌,
  nat_eq, list_eq,
}
use httpxp.Dict
use httpxp.Dict.{Dict}
use httpxp.Exceptions.Result.{ok}
use httpxp.Utils.{Primitive}
use httpxp.Urls.QueryParams.{
  first, contains, QueryParams, QueryParamTypes, get_list, init, merge, set, add, remove,
  append_item, get,
}
use httpxp.Urls.QueryParams.Items.{AllHaveValues, IsValid, AllHaveValues-put, append_item-IsValid}

AllHaveValues-without :
    (k : Text) (q : QueryParams) → AllHaveValues q → AllHaveValues (Dict.without k q)
unfolding AllHaveValues Dict.without
AllHaveValues-without k [] h = tt
AllHaveValues-without k ((j, w) ∷ q) (g, gs) = ground (arith, AllHaveValues-without k q gs)

AllHaveValues-update :
    (q r : QueryParams) → AllHaveValues q → AllHaveValues r → AllHaveValues (Dict.update q r)
unfolding AllHaveValues Dict.update
AllHaveValues-update q [] h hs = h
AllHaveValues-update q ((k, v) ∷ r) h (g, gs) =
    AllHaveValues-update (Dict.put k v q) r (AllHaveValues-put k v q g h) gs

-- If each name of a query stands once and has a value, and so it is in the query that the argument of
-- `merge` makes, then so it is after `set`, `add`, `remove` and `merge`.
pub methods-IsValid :
    (parse_qs : Text → QueryParams) (q : QueryParams) (key : Text) (value : Primitive)
    (argument : QueryParamTypes)
    → IsValid q
    → IsValid (init parse_qs argument)
    → IsValid (set q key value)
      × IsValid (add q key value)
      × IsValid (remove q key)
      × IsValid (merge parse_qs q argument)
unfolding set add remove merge
methods-IsValid parse_qs q key value argument h k = (
  record {
    distinct = Dict.IsDistinct-put key _ q h.distinct;
    values = AllHaveValues-put key _ q tt h.values;
  },
  (unfold append_item in append_item-IsValid q key value h),
  record {
    distinct = Dict.IsDistinct-without key q h.distinct;
    values = AllHaveValues-without key q h.values;
  },
  record {
    distinct = Dict.IsDistinct-update q (init parse_qs argument) h.distinct;
    values = AllHaveValues-update q (init parse_qs argument) h.values k.values;
  },
)

-- the first value, or else the default
pub first_or : Option Text → List Text → Option Text
first_or default [] = default
first_or default (v ∷ _) = some v

get_list-found :
    (j key : Text) (v : List Text) (q : QueryParams)
    → (j == key) ≡ true
    → get_list ((j, v) ∷ q) key ≡ v
unfolding get_list Dict.lookup
get_list-found j key v q e = ground arith

get_list-other :
    (j key : Text) (v : List Text) (q : QueryParams)
    → (j == key) ≡ false
    → get_list ((j, v) ∷ q) key ≡ get_list q key
unfolding get_list Dict.lookup
get_list-other j key v q e = ground arith

get-first :
    (q : QueryParams) (key : Text) (default : Option Text)
    → AllHaveValues q
    → get q key default ≡ ok (first_or default (get_list q key))
unfolding get contains first first_or AllHaveValues Dict.has
get-first [] key default h = unfold get_list Dict.lookup in refl
get-first ((j, []) ∷ q) key default (h, hs) = absurd h
get-first ((j, v ∷ vs) ∷ q) key default (h, hs) = elim (Bool-cases (j == key)) [
  | inl e ↦ rw (get_list-found j key (v ∷ vs) q e, e) refl
  | inr e ↦ rw (get_list-other j key (v ∷ vs) q e, e) (get-first q key default hs)
]

-- If each name of a query stands once and has a value, `get` does not raise: it returns the first
-- value of the key, or the default if there is none.
pub get_lem :
    (q : QueryParams) (key : Text) (default : Option Text)
    → IsValid q
    → get q key default ≡ ok (first_or default (get_list q key))
get_lem q key default h = get-first q key default h.values
