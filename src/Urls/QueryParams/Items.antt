-- ===== src/Urls/QueryParams/Items.antt =====
-- The pairs of a query and the query of its pairs.
use httpxp.Prelude.{List, Text, [], arith, ◌++◌, ◌∷◌, list_eq}
use httpxp.Dict
use httpxp.Utils.{Primitive}
use httpxp.Urls.QueryParams.{QueryParams, get_list, append_item, from_pairs, items}

-- Each name stands once, and has a value.
abbrev pub HasValues : List Text → Type 0
HasValues [] = ⊥
HasValues (_ ∷ _) = Unit

unfoldable pub AllHaveValues : QueryParams → Type 0
AllHaveValues [] = Unit
AllHaveValues ((k, v) ∷ q) = HasValues v × AllHaveValues q

pub record IsValid (q : QueryParams) : Type 0 where
  pub distinct : Dict.IsDistinct q
  pub values : AllHaveValues q

pub AllHaveValues-put :
    (k : Text) (v : List Text) (q : QueryParams)
    → HasValues v
    → AllHaveValues q
    → AllHaveValues (Dict.put k v q)
unfolding AllHaveValues Dict.put
AllHaveValues-put k v [] h hs = (h, tt)
AllHaveValues-put k v ((j, w) ∷ q) h (g, gs) = ground (arith, AllHaveValues-put k v q h gs)

HasValues-append : (v : List Text) (x : Text) → HasValues (v ++ x ∷ [])
HasValues-append [] x = tt
HasValues-append (_ ∷ _) x = tt

pub append_item-IsValid :
    (q : QueryParams) (key : Text) (value : Primitive)
    → IsValid q
    → IsValid (append_item q key value)
unfolding append_item
append_item-IsValid q key value h = record {
  distinct = Dict.IsDistinct-put key _ q h.distinct;
  values = AllHaveValues-put key _ q (HasValues-append (get_list q key) _) h.values;
}

pub from_pairs-IsValid :
    (q : QueryParams) (items : List (Text × Primitive)) → IsValid q → IsValid (from_pairs q items)
unfolding from_pairs
from_pairs-IsValid q [] h = h
from_pairs-IsValid q ((key, value) ∷ items) h =
    from_pairs-IsValid (append_item q key value) items (append_item-IsValid q key value h)

pub IsValid-empty : IsValid []
unfolding Dict.IsDistinct AllHaveValues
IsValid-empty = record { distinct = tt; values = tt }

pub values_of_IsValid :
    (k : Text) (v : List Text) (q : QueryParams)
    → AllHaveValues ((k, v) ∷ q)
    → HasValues v × AllHaveValues q
unfolding AllHaveValues
values_of_IsValid k v q h = h
