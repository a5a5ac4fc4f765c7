-- ===== src/Urls/QueryParams/Pairs.antt =====
-- A query made from a list of pairs, and the pairs of a query.
use httpxp.Prelude.{
  ==_iff, ==_refl, Bool-cases, List, Text, [], ap, append-nil, append_assoc, arith, false,
  if◌then◌else◌, inl, inr, map, refl, some, sym, ◌++◌, ◌==◌, ◌∙◌, ◌∷◌, ◌≡◌, nat_eq, list_eq,
}
use httpxp.Dict
use httpxp.Dict.{
  lookup-put, put-append, put-fresh, lookup-append, lookup-of_not_has, fresh-of_IsDistinct,
}
use httpxp.Utils.{str, Primitive, primitive_value_to_str}
use httpxp.Urls.QueryParams.{
  multi_items, QueryParams, pairs, get_list, init, append_item, from_pairs,
}
use httpxp.Urls.QueryParams.Items.{
  HasValues, IsValid-empty, values_of_IsValid, AllHaveValues, IsValid, from_pairs-IsValid,
}

-- the values that a list of pairs gives to a name, in order
pub values_of : Text → List (Text × Primitive) → List Text
values_of key [] = []
values_of key ((k, v) ∷ items) =
    let rest = values_of key items in if k == key then primitive_value_to_str v ∷ rest else rest

get_list-append_item :
    (q : QueryParams) (key : Text) (value : Primitive) (j : Text)
    → get_list (append_item q key value) j
      ≡ (if key == j then get_list q key ++ primitive_value_to_str value ∷ [] else get_list q j)
unfolding get_list append_item
get_list-append_item q key value j =
    ground (arith, lookup-put key j (get_list q key ++ primitive_value_to_str value ∷ []) q)

get_list-from_pairs :
    (q : QueryParams) (items : List (Text × Primitive)) (j : Text)
    → get_list (from_pairs q items) j ≡ get_list q j ++ values_of j items
unfolding from_pairs values_of
get_list-from_pairs q [] j = sym (append-nil _)
get_list-from_pairs q ((k, v) ∷ items) j =
    get_list-from_pairs (append_item q k v) items j ∙ elim (Bool-cases (k == j)) [
      | inl e ↦ (rw (get_list-append_item q k v j, e, append_assoc, (==_iff k j).0 e))
      | inr e ↦ rw (get_list-append_item q k v j, e)
    ]

-- A query made from pairs has, under each name, the values that the pairs give to it, in their
-- order; each name stands once and has a value.
pub init-pairs :
    (parse_qs : Text → QueryParams) (items : List (Text × Primitive))
    → IsValid (init parse_qs (pairs items))
      × ((j : Text) → get_list (init parse_qs (pairs items)) j ≡ values_of j items)
unfolding init
init-pairs parse_qs items = (
  from_pairs-IsValid [] items IsValid-empty,
  λ j. get_list-from_pairs [] items j ∙ (unfold get_list Dict.lookup in refl),
)

-- pairs of text as the constructor takes them
abbrev pub as_primitives : List (Text × Text) → List (Text × Primitive)
as_primitives [] = []
as_primitives ((k, v) ∷ l) = (k, str v) ∷ as_primitives l

as_primitives-append :
    (l m : List (Text × Text)) → as_primitives (l ++ m) ≡ as_primitives l ++ as_primitives m
as_primitives-append [] m = refl
as_primitives-append ((k, v) ∷ l) m = ap (λ t. (k, str v) ∷ t) (as_primitives-append l m)

one-lookup : (k : Text) (us : List Text) → Dict.lookup k ((k, us) ∷ []) ≡ some us
unfolding Dict.lookup
one-lookup k us = rw ==_refl

one-put : (k : Text) (us vs : List Text) → Dict.put k vs ((k, us) ∷ []) ≡ (k, vs) ∷ []
unfolding Dict.put
one-put k us vs = rw ==_refl

append_item-last :
    (q : QueryParams) (k : Text) (us : List Text) (x : Text)
    → Dict.has k q ≡ false
    → append_item (q ++ (k, us) ∷ []) k (str x) ≡ q ++ (k, us ++ x ∷ []) ∷ []
unfolding append_item get_list primitive_value_to_str
append_item-last q k us x h = ground (
  arith,
  put-append k (get_list (q ++ (k, us) ∷ []) k ++ x ∷ []) q ((k, us) ∷ []) h,
  lookup-append k q ((k, us) ∷ []) h,
  one-lookup k us,
  one-put k us (us ++ x ∷ []),
)

append_item-first :
    (q : QueryParams) (k : Text) (x : Text)
    → Dict.has k q ≡ false
    → append_item q k (str x) ≡ q ++ (k, x ∷ []) ∷ []
unfolding append_item get_list primitive_value_to_str
append_item-first q k x h = ground (arith, lookup-of_not_has k q h, put-fresh k (x ∷ []) q h)

from_pairs-values :
    (q : QueryParams) (k : Text) (us vs : List Text) (l : List (Text × Primitive))
    → Dict.has k q ≡ false
    → from_pairs (q ++ (k, us) ∷ []) (as_primitives (map (λ i. (k, i)) vs) ++ l)
      ≡ from_pairs (q ++ (k, us ++ vs) ∷ []) l
unfolding from_pairs
from_pairs-values q k us [] l h = rw append-nil
from_pairs-values q k us (v ∷ vs) l h =
    ap (λ t. from_pairs t (as_primitives (map (λ i. (k, i)) vs) ++ l)) (append_item-last q k us v h)
    ∙ from_pairs-values q k (us ++ v ∷ []) vs l h
    ∙ ap (λ t. from_pairs (q ++ (k, t) ∷ []) l) (append_assoc us (v ∷ []) vs)

from_pairs-name :
    (q : QueryParams) (k : Text) (vs : List Text) (l : List (Text × Primitive))
    → Dict.has k q ≡ false
    → HasValues vs
    → from_pairs q (as_primitives (map (λ i. (k, i)) vs) ++ l) ≡ from_pairs (q ++ (k, vs) ∷ []) l
unfolding from_pairs
from_pairs-name q k [] l h p = absurd p
from_pairs-name q k (v ∷ vs) l h p =
    ap (λ t. from_pairs t (as_primitives (map (λ i. (k, i)) vs) ++ l)) (append_item-first q k v h)
    ∙ from_pairs-values q k (v ∷ []) vs l h

from_pairs-multi_items :
    (p q : QueryParams)
    → Dict.IsDistinct (p ++ q)
    → AllHaveValues q
    → from_pairs p (as_primitives (multi_items q)) ≡ p ++ q
unfolding multi_items
from_pairs-multi_items p [] d h = unfold from_pairs in sym (append-nil p)
from_pairs-multi_items p ((k, v) ∷ q) d h =
    let (hv, hq) = values_of_IsValid k v q h in
    rw as_primitives-append (
      from_pairs-name p k v (as_primitives (multi_items q)) (fresh-of_IsDistinct k v p q d) hv
      ∙ from_pairs-multi_items (p ++ (k, v) ∷ []) q (rw append_assoc d) hq
      ∙ append_assoc p ((k, v) ∷ []) q)

-- A query whose names stand once, each with a value, is made again from its own items, with its
-- names in the same order.
pub init-multi_items :
    (parse_qs : Text → QueryParams) (q : QueryParams)
    → IsValid q
    → init parse_qs (pairs (as_primitives (multi_items q))) ≡ q
unfolding init
init-multi_items parse_qs q h = from_pairs-multi_items [] q h.distinct h.values
