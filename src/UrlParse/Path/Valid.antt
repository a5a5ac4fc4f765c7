-- ===== src/UrlParse/Path/Valid.antt =====
-- Normalising keeps a path valid.
use httpxp.Prelude.{
  Bool, List, Text, [], arith, codes, join, list_beq, list_beq_iff, refl, split, starts_with, true,
  ◌∷◌, ◌≡◌, nat_eq, list_eq,
}
use httpxp.Exceptions.Result.{ok}
use httpxp.UrlParse.Path.{pop, step, remove_dots, normalize_path, validate_path}
use httpxp.UrlParse.Path.Normal.{normalize_path-eq-remove_dots}

-- The first component of a path that begins with a slash is empty.
abbrev IsRooted : List Text → Type 0
IsRooted [] = ⊥
IsRooted (w ∷ _) = w ≡ []

IsRooted-step : (output : List Text) (w : Text) → IsRooted output → IsRooted (step output w)
unfolding step pop
IsRooted-step [] w h = absurd h
IsRooted-step (v ∷ []) w h = ground (arith, list_beq_iff (v ∷ []) ([] ∷ []))
IsRooted-step (v ∷ u ∷ vs) w h = ground arith

IsRooted-remove_dots : (output ws : List Text) → IsRooted output → IsRooted (remove_dots output ws)
unfolding remove_dots
IsRooted-remove_dots output [] h = h
IsRooted-remove_dots output (w ∷ ws) h =
    IsRooted-remove_dots (step output w) ws (IsRooted-step output w h)

-- empty, or it begins with a slash
abbrev pub IsAbsolute : Text → Type 0
IsAbsolute [] = Unit
IsAbsolute (c ∷ _) = c ≡ b'/'

IsAbsolute-join : (ws : List Text) → IsRooted ws → IsAbsolute (join (codes "/") ws)
unfolding join
IsAbsolute-join [] h = absurd h
IsAbsolute-join (w ∷ []) h = rw h tt
IsAbsolute-join (w ∷ v ∷ ws) h = rw h refl

IsAbsolute-remove_dots :
    (s : Text) → IsAbsolute s → IsAbsolute (join (codes "/") (remove_dots [] (split b'/' s)))
unfolding list_beq
IsAbsolute-remove_dots [] h = unfold split remove_dots step join in tt
IsAbsolute-remove_dots (c ∷ s) h =
    unfold split in
    rw h (
      IsAbsolute-join _
        (unfold remove_dots step in IsRooted-remove_dots ([] ∷ []) (split b'/' s) refl))

IsAbsolute-normalize_path : (path : Text) → IsAbsolute path → IsAbsolute (normalize_path path)
IsAbsolute-normalize_path path h =
    rw (normalize_path-eq-remove_dots path) (IsAbsolute-remove_dots path h)

IsAbsolute-valid : (path : Text) (s : Bool) → validate_path path s true ≡ ok tt → IsAbsolute path
unfolding validate_path starts_with
IsAbsolute-valid [] s h = tt
IsAbsolute-valid (c ∷ path) s h = ground arith

valid-IsAbsolute : (path : Text) (s : Bool) → IsAbsolute path → validate_path path s true ≡ ok tt
unfolding validate_path starts_with
valid-IsAbsolute [] s h = ground arith
valid-IsAbsolute (c ∷ path) s h = ground arith

-- A path that is valid beside an authority is still valid there after it is normalised.
pub validate_path-normalize_path :
    (path : Text) (has_scheme : Bool)
    → validate_path path has_scheme true ≡ ok tt
    → validate_path (normalize_path path) has_scheme true ≡ ok tt
validate_path-normalize_path path s h =
    valid-IsAbsolute (normalize_path path) s
      (IsAbsolute-normalize_path path (IsAbsolute-valid path s h))
