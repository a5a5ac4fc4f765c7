-- ===== src/UrlParse/Chars.antt =====
-- The character sets of httpxp/_urlparse.py: what may stand unescaped in each part of a URL, and
-- the shape of an existing escape.
use httpxp.Prelude.{
  Bool, List, Text, [], codes, is_digit, keep, leb, mem, not, suc, zero, ℕ, ◌&&◌, ◌++◌, ◌+◌, ◌==◌,
  ◌||◌, ◌∷◌, nat_eq,
}

-- `range(first, first + count)`
range_from : ℕ → ℕ → List ℕ
range_from first zero = []
range_from first (suc count) = first ∷ range_from (first + 1) count

unfoldable pub unreserved_characters : Text
unreserved_characters = codes "ABCDEFGHIJKLMNOPQRSTUVWXYZabcdefghijklmnopqrstuvwxyz0123456789-._~"

unfoldable pub sub_delims : Text
sub_delims = codes "!$&'()*+,;="

-- `[chr(i) for i in range(0x20, 0x7F) if i not in excluded]`
printable_except : List ℕ → Text
unfolding range_from
printable_except excluded = keep (λ i. not (mem i excluded)) (range_from 0x20 95)

unfoldable pub frag_safe : Text
unfolding printable_except
frag_safe = printable_except (0x20 ∷ 0x22 ∷ 0x3C ∷ 0x3E ∷ 0x60 ∷ [])

abbrev query_excluded : List ℕ
query_excluded = 0x20 ∷ 0x22 ∷ 0x23 ∷ 0x3C ∷ 0x3E ∷ []

abbrev path_excluded : List ℕ
path_excluded = query_excluded ++ 0x3F ∷ 0x60 ∷ 0x7B ∷ 0x7D ∷ []

unfoldable pub query_safe : Text
unfolding printable_except
query_safe = printable_except query_excluded

unfoldable pub path_safe : Text
unfolding printable_except
path_safe = printable_except path_excluded

unfoldable pub username_safe : Text
unfolding printable_except
username_safe =
    printable_except
      (path_excluded ++ 0x2F ∷ 0x3A ∷ 0x3B ∷ 0x3D ∷ 0x40 ∷ 0x5B ∷ 0x5C ∷ 0x5D ∷ 0x5E ∷ 0x7C ∷ [])

unfoldable pub password_safe : Text
unfolding printable_except
password_safe =
    printable_except
      (path_excluded ++ 0x2F ∷ 0x3A ∷ 0x3B ∷ 0x3D ∷ 0x40 ∷ 0x5B ∷ 0x5C ∷ 0x5D ∷ 0x5E ∷ 0x7C ∷ [])

unfoldable pub userinfo_safe : Text
unfolding printable_except
userinfo_safe =
    printable_except
      (path_excluded ++ 0x2F ∷ 0x3B ∷ 0x3D ∷ 0x40 ∷ 0x5B ∷ 0x5C ∷ 0x5D ∷ 0x5E ∷ 0x7C ∷ [])

-- `[A-Fa-f0-9]`
unfoldable pub is_hex : ℕ → Bool
is_hex c = is_digit c || (leb b'A' c && leb c b'F') || (leb b'a' c && leb c b'f')

-- the three characters of a match of `PERCENT_ENCODED_REGEX`
unfoldable pub is_escape : ℕ → ℕ → ℕ → Bool
unfolding is_hex
is_escape c a b = c == b'%' && is_hex a && is_hex b
