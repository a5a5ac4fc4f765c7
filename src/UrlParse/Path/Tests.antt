-- ===== src/UrlParse/Path/Tests.antt =====
-- Runs of the normalisation of paths, and the theorems at an input.
use httpxp.Prelude.{All, Text, codes, refl, split, true, ◌≡◌}
use httpxp.Exceptions.Result.{ok}
use httpxp.UrlParse.Path.Normal.{IsSegment, normalize_path-IsSegment, normalize_path-normalize_path}
use httpxp.UrlParse.Path.Valid.{validate_path-normalize_path}
use httpxp.UrlParse.Path.{validate_path, normalize_path}

normalize_path_test :
    (normalize_path (codes "/path/./to/somewhere/..") ≡ codes "/path/to")
    × (normalize_path (codes "/../../a") ≡ codes "/a")
    × (normalize_path (codes "../a/b/..") ≡ codes "a")
unfolding normalize_path
normalize_path_test = (refl, refl, refl)

abbrev sample : Text
sample = codes "/path/./to/../.x"

normalize_path-IsSegment_example : All IsSegment (split b'/' (normalize_path sample))
normalize_path-IsSegment_example = normalize_path-IsSegment sample

normalize_path-normalize_path_example :
    normalize_path (normalize_path sample) ≡ normalize_path sample
normalize_path-normalize_path_example = normalize_path-normalize_path sample

validate_path-normalize_path_example : validate_path (normalize_path sample) true true ≡ ok tt
unfolding validate_path
validate_path-normalize_path_example = validate_path-normalize_path sample true refl
