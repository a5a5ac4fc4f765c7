-- ===== src/UrlParse/Path.antt =====
-- `validate_path` and `normalize_path` of httpxp/_urlparse.py.
mod Normal
mod Valid
mod Tests
use httpxp.Prelude.{
  Bool, List, Text, [], codes, if◌then◌else◌, is_nil, join, list_beq, mem, not, split, starts_with,
  ◌&&◌, ◌++◌, ◌==◌, ◌∷◌, nat_eq, list_eq,
}
use httpxp.Exceptions.{invalid_url}
use httpxp.Exceptions.Result.{Result, ◌>>◌, ◌>>=◌, ensure}

-- The two tests on an absolute URL, then the two on a relative one.
unfoldable pub validate_path : Text → Bool → Bool → Result (Unit {0})
unfolding starts_with
validate_path path has_scheme has_authority = do
  ensure (not (has_authority && not (is_nil path) && not (starts_with path (codes "/"))))
      invalid_url
  ensure (not (not has_scheme && not has_authority && starts_with path (codes "//"))) invalid_url
  ensure (not (not has_scheme && not has_authority && starts_with path (codes ":"))) invalid_url

abbrev dot : Text
dot = codes "."

abbrev dot_dot : Text
dot_dot = codes ".."

-- `output.pop()`: the last element, if there is one
pub pop : List Text → List Text
pop [] = []
pop (w ∷ []) = []
pop (w ∷ v ∷ ws) = w ∷ pop (v ∷ ws)

-- one round of the loop
step : List Text → Text → List Text
unfolding pop
step output component =
    if component == dot
    then output
    else if component == dot_dot
    then (if not (is_nil output) && not (output == [] ∷ []) then pop output else output)
    else output ++ component ∷ []

pub remove_dots : List Text → List Text → List Text
remove_dots output [] = output
remove_dots output (component ∷ components) = remove_dots (step output component) components

unfoldable pub normalize_path : Text → Text
unfolding remove_dots step split join list_beq
normalize_path path =
    if not (mem b'.' path)
    then path
    else let components = split b'/' path in
      if not (mem dot components) && not (mem dot_dot components)
      then path
      else join (codes "/") (remove_dots [] components)
