-- ===== src/UrlParse/Path/Normal.antt =====
-- The segments of a normalised path.
use httpxp.Prelude.{
  ==_iff, All, All-append, Bool-cases, List, Text, [], append-nil, append_assoc, arith, codes,
  false, inl, inr, join, join-split, mem, mem-split, refl, split, split-join, split-parts, sym,
  true, ◌++◌, ◌==◌, ◌∙◌, ◌∷◌, ◌≡◌, ◌≢◌, nat_eq, list_eq,
}
use httpxp.UrlParse.Path.{dot, dot_dot, pop, step, remove_dots, normalize_path}

-- A segment that is no instruction.
abbrev pub IsSegment : Text → Type 0
IsSegment w = (w ≢ codes ".") × (w ≢ codes "..")

-- A segment that holds no separator either.
abbrev IsPart : Text → Type 0
IsPart w = ((w == dot) ≡ false) × ((w == dot_dot) ≡ false) × (mem b'/' w ≡ false)

IsPart-pop : (ws : List Text) → All IsPart ws → All IsPart (pop ws)
unfolding pop
IsPart-pop [] h = tt
IsPart-pop (w ∷ []) h = tt
IsPart-pop (w ∷ v ∷ ws) (h, hs) = (h, IsPart-pop (v ∷ ws) hs)

IsPart-step :
    (output : List Text) (w : Text)
    → All IsPart output
    → mem b'/' w ≡ false
    → All IsPart (step output w)
unfolding step
IsPart-step output w h n = elim (Bool-cases (w == dot)) [
  | inl e ↦ rw e h
  | inr e ↦ rw e (elim (Bool-cases (w == dot_dot)) [
    | inl d ↦ rw d (ground (arith, IsPart-pop output h))
    | inr d ↦ rw d (All-append IsPart output (w ∷ []) h ((e, d, n), tt))
  ])
]

IsPart-remove_dots :
    (output ws : List Text)
    → All IsPart output
    → All (λ w. mem b'/' w ≡ false) ws
    → All IsPart (remove_dots output ws)
unfolding remove_dots
IsPart-remove_dots output [] h n = h
IsPart-remove_dots output (w ∷ ws) h (n, ns) =
    IsPart-remove_dots (step output w) ws (IsPart-step output w h n) ns

step-plain :
    (output : List Text) (w : Text)
    → (w == dot) ≡ false
    → (w == dot_dot) ≡ false
    → step output w ≡ output ++ w ∷ []
unfolding step
step-plain output w h k = rw (h, k)

-- components that are no dots are kept
remove_dots-of_plain :
    (output ws : List Text)
    → mem dot ws ≡ false
    → mem dot_dot ws ≡ false
    → remove_dots output ws ≡ output ++ ws
unfolding remove_dots
remove_dots-of_plain output [] h k = sym (append-nil output)
remove_dots-of_plain output (w ∷ ws) h k =
    rw
      (step-plain output w (ground (arith, ==_iff dot w, ==_iff w dot))
        (ground (arith, ==_iff dot_dot w, ==_iff w dot_dot)))
      (remove_dots-of_plain (output ++ w ∷ []) ws (ground arith) (ground arith)
        ∙ append_assoc output (w ∷ []) ws)

not_mem-of_dotless :
    (w : Text) (ws : List Text)
    → mem b'.' w ≡ true
    → All (λ v. mem b'.' v ≡ false) ws
    → mem w ws ≡ false
not_mem-of_dotless w [] h k = refl
not_mem-of_dotless w (v ∷ ws) h (k, ks) = ground (arith, not_mem-of_dotless w ws h ks, ==_iff w v)

rejoin :
    (path : Text)
    → mem dot (split b'/' path) ≡ false
    → mem dot_dot (split b'/' path) ≡ false
    → path ≡ join (codes "/") (remove_dots [] (split b'/' path))
rejoin path h k = rw (remove_dots-of_plain [] (split b'/' path) h k) (sym (join-split b'/' path))

dotless :
    (w path : Text) → mem b'.' w ≡ true → mem b'.' path ≡ false → mem w (split b'/' path) ≡ false
dotless w path h k = not_mem-of_dotless w (split b'/' path) h (mem-split b'/' b'.' path k)

-- `normalize_path` returns what it returns without its two fast returns.
pub normalize_path-eq-remove_dots :
    (path : Text) → normalize_path path ≡ join (codes "/") (remove_dots [] (split b'/' path))
unfolding normalize_path
normalize_path-eq-remove_dots path =
    ground (arith, rejoin path, dotless dot path refl, dotless dot_dot path refl)

IsSegment-of_parts : (ws : List Text) → All IsPart ws → All IsSegment ws
IsSegment-of_parts [] h = tt
IsSegment-of_parts (w ∷ ws) (h, hs) =
    (ground (arith, ==_iff w dot, ==_iff w dot_dot), IsSegment-of_parts ws hs)

parts-no_slash : (ws : List Text) → All IsPart ws → All (λ w. mem b'/' w ≡ false) ws
parts-no_slash [] h = tt
parts-no_slash (w ∷ ws) (h, hs) = (h.2, parts-no_slash ws hs)

IsSegment-join : (ws : List Text) → All IsPart ws → All IsSegment (split b'/' (join (codes "/") ws))
IsSegment-join [] h = unfold split join in (((λ e. cc), (λ e. cc)), tt)
IsSegment-join (w ∷ ws) h =
    rw (split-join b'/' w ws (parts-no_slash (w ∷ ws) h)) (IsSegment-of_parts (w ∷ ws) h)

-- No segment of a normalised path is "." or "..".
pub normalize_path-IsSegment : (path : Text) → All IsSegment (split b'/' (normalize_path path))
normalize_path-IsSegment path = rw (normalize_path-eq-remove_dots path) (
    IsSegment-join (remove_dots [] (split b'/' path))
      (IsPart-remove_dots [] (split b'/' path) tt (split-parts b'/' path)))

not_mem-of_segments :
    (ws : List Text) → All IsSegment ws → (mem dot ws ≡ false) × (mem dot_dot ws ≡ false)
not_mem-of_segments [] h = (refl, refl)
not_mem-of_segments (w ∷ ws) ((p, q), h) =
    ground (arith, not_mem-of_segments ws h, ==_iff dot w, ==_iff dot_dot w)

normalize_path-of_segments : (s : Text) → All IsSegment (split b'/' s) → normalize_path s ≡ s
unfolding normalize_path
normalize_path-of_segments s h = let (p, q) = not_mem-of_segments (split b'/' s) h in ground arith

-- Normalising a normalised path changes nothing.
pub normalize_path-normalize_path :
    (path : Text) → normalize_path (normalize_path path) ≡ normalize_path path
normalize_path-normalize_path path =
    normalize_path-of_segments (normalize_path path) (normalize_path-IsSegment path)
