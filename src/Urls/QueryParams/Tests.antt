-- ===== src/Urls/QueryParams/Tests.antt =====
-- The theorems on query parameters at an input.
use httpxp.Urls.QueryParams.Kept.{methods-IsValid}
use httpxp.Prelude.{
  List, Text, [], codes, if◌then◌else◌, list_beq, refl, true, ◌++◌, ◌==◌, ◌∷◌, ◌≡◌, nat_eq, list_eq,
}
use httpxp.Urls.QueryParams.{
  QueryParams, get_list, init, pairs, query_params, multi_items, contains, merge, set, add, remove,
}
use httpxp.Urls.QueryParams.Items.{IsValid, AllHaveValues}
use httpxp.Urls.QueryParams.Pairs.{init-multi_items, as_primitives}
use httpxp.Urls.QueryParams.Lookup.{get_list-changes, get_list-merge}
use httpxp.Utils.{str, bool, null, primitive_value_to_str, Primitive}
use httpxp.Dict

abbrev no_query : Text → QueryParams
no_query _ = []

abbrev given : List (Text × Primitive)
given = (codes "a", str (codes "1")) ∷ (codes "b", bool true) ∷ (codes "a", null) ∷ []

abbrev query : QueryParams
query = (codes "a", codes "1" ∷ codes "2" ∷ []) ∷ (codes "b", codes "3" ∷ []) ∷ []

query-IsValid : IsValid query
unfolding Dict.IsDistinct Dict.has AllHaveValues list_beq
query-IsValid = record { distinct = (refl, (refl, tt)); values = (tt, (tt, tt)) }

init-multi_items_example : init no_query (pairs (as_primitives (multi_items query))) ≡ query
init-multi_items_example = init-multi_items no_query query query-IsValid

get_list-changes_example :
    (get_list (set query (codes "a") null) (codes "a") ≡ (
      if codes "a" == codes "a"
      then primitive_value_to_str null ∷ []
      else get_list query (codes "a")))
    × (get_list (add query (codes "a") null) (codes "a") ≡ (
        if codes "a" == codes "a"
        then get_list query (codes "a") ++ primitive_value_to_str null ∷ []
        else get_list query (codes "a")))
    × (get_list (remove query (codes "a")) (codes "a")
        ≡ (if codes "a" == codes "a" then [] else get_list query (codes "a")))
get_list-changes_example = get_list-changes query (codes "a") null (codes "a")

get_list-merge_example : get_list (merge no_query query (query_params query)) (codes "b") ≡ (
    if contains (init no_query (query_params query)) (codes "b")
    then get_list (init no_query (query_params query)) (codes "b")
    else get_list query (codes "b"))
unfolding init
get_list-merge_example =
    get_list-merge no_query query (query_params query) (codes "b") query-IsValid.distinct

methods-IsValid_example :
    IsValid (set query (codes "a") null)
    × IsValid (add query (codes "a") null)
    × IsValid (remove query (codes "a"))
    × IsValid (merge no_query query (query_params query))
unfolding init
methods-IsValid_example =
    methods-IsValid no_query query (codes "a") null (query_params query) query-IsValid query-IsValid
