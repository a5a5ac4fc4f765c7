-- ===== src/Urls/QueryParams.antt =====
-- `QueryParams` of httpxp/_urls.py, a dictionary of lists. Its methods return a new value.
mod Lookup
mod Items
mod Pairs
mod Kept
mod Tests
use httpxp.Prelude.{
  Bool, List, Option, Text, [], if◌then◌else◌, map, none, some, ◌++◌, ◌∷◌, list_eq,
}
use httpxp.Exceptions.{index_error}
use httpxp.Exceptions.Result.{Result, ok, err, ◌>>=◌}
use httpxp.Dict
use httpxp.Dict.{Dict}
use httpxp.Utils.{Primitive, primitive_value_to_str}

abbrev pub QueryParams : Type 0
QueryParams = Dict (List Text)

-- a value of a mapping that is given to the constructor
pub data Values : Type 0 where
  one : Primitive → Values
  many : List Primitive → Values

-- `QueryParamTypes`
pub data QueryParamTypes : Type 0 where
  absent : QueryParamTypes
  string : Text → QueryParamTypes
  query_params : QueryParams → QueryParamTypes
  pairs : List (Text × Primitive) → QueryParamTypes
  mapping : List (Text × Values) → QueryParamTypes

-- `d.get(k, [])`
pub get_list : QueryParams → Text → List Text
get_list q key = elim (Dict.lookup key q) [ none ↦ [] | some v ↦ v ]

-- `dict_value.setdefault(item[0], []).append(item[1])`, the value as text at once
pub append_item : QueryParams → Text → Primitive → QueryParams
append_item q key value = Dict.put key (get_list q key ++ primitive_value_to_str value ∷ []) q

pub from_pairs : QueryParams → List (Text × Primitive) → QueryParams
from_pairs q [] = q
from_pairs q ((key, value) ∷ items) = from_pairs (append_item q key value) items

values_to_str : Values → List Text
values_to_str (one value) = primitive_value_to_str value ∷ []
values_to_str (many values) = map primitive_value_to_str values

from_mapping : QueryParams → List (Text × Values) → QueryParams
from_mapping q [] = q
from_mapping q ((key, value) ∷ items) = from_mapping (Dict.put key (values_to_str value) q) items

-- `urllib.parse.parse_qs` with `keep_blank_values` is a parameter.
module _ (parse_qs : Text → QueryParams) where
  pub init : QueryParamTypes → QueryParams
  init absent = []
  init (string value) = parse_qs value
  init (query_params q) = q
  init (pairs items) = from_pairs [] items
  init (mapping items) = from_mapping [] items

  pub merge : QueryParams → QueryParamTypes → QueryParams
  merge q params = Dict.update q (init params)

pub contains : QueryParams → Text → Bool
contains q key = Dict.has key q

-- `v[0]`
pub first : List Text → Result Text
first [] = err index_error
first (v ∷ _) = ok v

pub get : QueryParams → Text → Option Text → Result (Option Text)
get q key default =
    if contains q key then (do v ← first (get_list q key); ok (some v)) else ok default

pub set : QueryParams → Text → Primitive → QueryParams
set q key value = Dict.put key (primitive_value_to_str value ∷ []) q

pub add : QueryParams → Text → Primitive → QueryParams
add q key value = Dict.put key (get_list q key ++ primitive_value_to_str value ∷ []) q

pub remove : QueryParams → Text → QueryParams
remove q key = Dict.without key q

pub items : QueryParams → Result (Dict Text)
items [] = ok []
items ((k, v) ∷ q) = do x ← first v; rest ← items q; ok ((k, x) ∷ rest)

pub multi_items : QueryParams → List (Text × Text)
multi_items [] = []
multi_items ((k, v) ∷ q) = map (λ i. (k, i)) v ++ multi_items q
