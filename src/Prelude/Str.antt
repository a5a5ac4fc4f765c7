-- ===== src/Prelude/Str.antt =====
-- Python's `str` as its code points and `bytes` as numbers below 256, with the methods that the
-- program calls on them.
use Prim.Native.Nat.{ℕ, ◌+◌}
use Prim.Native.Char.{code}
use Prim.Native.String.{String}
use mathlib.Core.Bool.{Bool, true, false, ◌&&◌, ◌||◌}
use mathlib.Core.List.{List, [], ◌∷◌, ◌++◌, map, reverse}
use httpxp.Prelude.Tests.{leb, ◌==◌, if◌then◌else◌, list_eq, nat_eq}

abbrev pub Text : Type 0
Text = List ℕ

abbrev pub Bytes : Type 0
Bytes = List ℕ

-- The code points of a literal.
abbrev pub codes : String → Text
codes String.[] = []
codes (String.◌∷◌ c s) = code c ∷ codes s

abbrev pub is_upper : ℕ → Bool
is_upper c = leb b'A' c && leb c b'Z'

abbrev pub is_digit : ℕ → Bool
is_digit c = leb b'0' c && leb c b'9'

abbrev pub is_alpha : ℕ → Bool
is_alpha c = is_upper c || (leb b'a' c && leb c b'z')

-- `isascii` of one character
abbrev pub is_ascii : ℕ → Bool
is_ascii c = leb c 127

-- `lower` of one ASCII character
unfoldable pub lower_char : ℕ → ℕ
lower_char c = if is_upper c then c + 32 else c

-- `lower()` on bytes, and on text that is ASCII
unfoldable pub lower : Text → Text
unfolding lower_char
lower s = map lower_char s

unfoldable pub starts_with : Text → Text → Bool
starts_with s [] = true
starts_with [] (_ ∷ _) = false
starts_with (c ∷ s) (d ∷ p) = c == d && starts_with s p

-- `part in text`
unfoldable pub is_infix : Text → Text → Bool
unfolding starts_with
is_infix [] [] = true
is_infix (_ ∷ _) [] = false
is_infix part (c ∷ s) = starts_with (c ∷ s) part || is_infix part s

unfoldable pub ends_with : Text → Text → Bool
unfolding starts_with
ends_with s p = starts_with (reverse s) (reverse p)

-- one more character in front of the first field
abbrev pub onto_first : ℕ → List Text → List Text
onto_first c [] = (c ∷ []) ∷ []
onto_first c (w ∷ ws) = (c ∷ w) ∷ ws

-- `s.split(sep)` at a separator of one character; never empty
unfoldable pub split : ℕ → Text → List Text
split sep [] = [] ∷ []
split sep (c ∷ s) = let rest = split sep s in if c == sep then [] ∷ rest else onto_first c rest

-- `sep.join(parts)`
unfoldable pub join : Text → List Text → Text
join sep [] = []
join sep (w ∷ []) = w
join sep (w ∷ v ∷ ws) = w ++ (sep ++ join sep (v ∷ ws))

-- `s.partition(sep)` at a separator of one character: what stands before it, whether it was found,
-- and what stands behind it
unfoldable pub partition : ℕ → Text → Text × Bool × Text
partition sep [] = ([], false, [])
partition sep (c ∷ s) =
    let (before, found, after) = partition sep s in
    if c == sep then ([], true, s) else (c ∷ before, found, after)

-- `s.lstrip(chars)`
unfoldable pub lstrip : (ℕ → Bool) → Text → Text
lstrip p [] = []
lstrip p (c ∷ s) = let rest = lstrip p s in if p c then rest else c ∷ s

-- `s.rstrip(chars)`
unfoldable pub rstrip : (ℕ → Bool) → Text → Text
unfolding lstrip
rstrip p s = reverse (lstrip p (reverse s))

-- `str.isspace` of one character
unfoldable pub is_space : ℕ → Bool
is_space c =
    (leb 0x09 c && leb c 0x0D)
    || (leb 0x1C c && leb c 0x20)
    || c == 0x85
    || c == 0xA0
    || c == 0x1680
    || (leb 0x2000 c && leb c 0x200A)
    || c == 0x2028
    || c == 0x2029
    || c == 0x202F
    || c == 0x205F
    || c == 0x3000

unfoldable pub strip : Text → Text
strip s = rstrip is_space (lstrip is_space s)
