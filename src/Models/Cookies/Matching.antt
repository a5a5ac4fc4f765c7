-- ===== src/Models/Cookies/Matching.antt =====
-- What `get` answers.
use httpxp.Prelude.{List, Option, Text, [], keep, map, none, some, ◌∷◌}
use httpxp.Exceptions.{cookie_conflict}
use httpxp.Exceptions.Result.{Result, ok, err}
use httpxp.Models.Cookies.{Cookie, is_wanted}

-- Of the values of the cookies that are wanted, those without a value that come first do not count;
-- behind the first one with a value there may be no other.
abbrev pub the_one : Option Text → List (Option Text) → Result (Option Text)
the_one default [] = ok default
the_one default (none ∷ vs) = the_one default vs
the_one default (some v ∷ []) = ok (some v)
the_one default (some v ∷ w ∷ vs) = err cookie_conflict

module _ (name : Text) (domain path : Option Text) where
  wanted : List Cookie → List (Option Text)
  wanted cs = map (λ c. c.value) (keep (is_wanted name domain path) cs)
