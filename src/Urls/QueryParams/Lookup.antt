-- ===== src/Urls/QueryParams/Lookup.antt =====
-- What a lookup finds after each method: the dictionary refines a map from names to lists.
use httpxp.Prelude.{Text, [], arith, if◌then◌else◌, ◌++◌, ◌==◌, ◌∷◌, ◌≡◌, nat_eq, list_eq}
use httpxp.Dict
use httpxp.Dict.{lookup-put, lookup-without, lookup-update}
use httpxp.Utils.{Primitive, primitive_value_to_str}
use httpxp.Urls.QueryParams.{
  QueryParams, QueryParamTypes, get_list, init, contains, merge, set, add, remove,
}

-- The abstract view: all values of a name.
module _ (q : QueryParams) (key : Text) (value : Primitive) (j : Text) where
  -- `set` replaces the values of its key by one and keeps the values of every other key.
  pub get_list-set :
      get_list (set q key value) j
      ≡ (if key == j then primitive_value_to_str value ∷ [] else get_list q j)
  unfolding get_list set
  get_list-set = ground (arith, lookup-put key j (primitive_value_to_str value ∷ []) q)

  -- `add` appends one value to those of its key and keeps the values of every other key.
  pub get_list-add :
      get_list (add q key value) j
      ≡ (if key == j then get_list q key ++ primitive_value_to_str value ∷ [] else get_list q j)
  unfolding get_list add
  get_list-add =
      ground (arith, lookup-put key j (get_list q key ++ primitive_value_to_str value ∷ []) q)

  -- `remove` leaves no value of its key and keeps the values of every other key.
  pub get_list-remove : get_list (remove q key) j ≡ (if key == j then [] else get_list q j)
  unfolding get_list remove
  get_list-remove = ground (arith, lookup-without key j q)

-- A lookup after `set` finds one value under its key, after `add` one more than before, and after
-- `remove` none; each of them keeps the values of every other key.
pub get_list-changes :
    (q : QueryParams) (key : Text) (value : Primitive) (j : Text)
    → (get_list (set q key value) j
        ≡ (if key == j then primitive_value_to_str value ∷ [] else get_list q j))
      × (get_list (add q key value) j ≡ (
          if key == j then get_list q key ++ primitive_value_to_str value ∷ [] else get_list q j))
      × (get_list (remove q key) j ≡ (if key == j then [] else get_list q j))
get_list-changes q key value j =
    (get_list-set q key value j, get_list-add q key value j, get_list-remove q key value j)

module _ (parse_qs : Text → QueryParams) where
  -- If each name of the argument stands once, `merge` takes the values of a key from the argument if
  -- it has the key, and from the receiver otherwise.
  pub get_list-merge :
      (q : QueryParams) (params : QueryParamTypes) (j : Text)
      → Dict.IsDistinct (init parse_qs params)
      → get_list (merge parse_qs q params) j ≡ (
          if contains (init parse_qs params) j
          then get_list (init parse_qs params) j
          else get_list q j)
  unfolding get_list merge contains
  get_list-merge q params j h = ground (
    arith,
    lookup-update j q (init parse_qs params) h,
    Dict.has-eq-lookup j (init parse_qs params),
  )
