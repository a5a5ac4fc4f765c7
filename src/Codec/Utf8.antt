-- ===== src/Codec/Utf8.antt =====
-- `encode("utf-8")` and `decode("utf-8")`.
pub mod RoundTrip
use httpxp.Prelude.{
  All, All-append, Bool, Bytes, Option, Text, [], arith, concat, if◌then◌else◌, leb, ltb, map, none,
  not, refl, some, suc, zero, ℕ, ◌%◌, ◌&&◌, ◌*◌, ◌+◌, ◌-◌, ◌/◌, ◌<◌, ◌==◌, ◌∷◌, ◌≡◌, nat_eq,
}

utf8_char : ℕ → Bytes
utf8_char c =
    if ltb c 0x80
    then c ∷ []
    else if ltb c 0x800
    then (0xC0 + c / 0x40) ∷ (0x80 + c % 0x40) ∷ []
    else if ltb c 0x10000
    then (0xE0 + c / 0x1000) ∷ (0x80 + c / 0x40 % 0x40) ∷ (0x80 + c % 0x40) ∷ []
    else (0xF0 + c / 0x40000)
      ∷ (0x80 + c / 0x1000 % 0x40)
      ∷ (0x80 + c / 0x40 % 0x40)
      ∷ (0x80 + c % 0x40)
      ∷ []

unfoldable pub encode_utf8 : Text → Bytes
unfolding utf8_char
encode_utf8 s = concat (map utf8_char s)

-- A code point of Unicode.
abbrev pub IsChar : ℕ → Type 0
IsChar c = c < 0x110000

abbrev pub IsByte : ℕ → Type 0
IsByte b = b < 256

utf8_char-IsByte : (c : ℕ) → IsChar c → All IsByte (utf8_char c)
unfolding utf8_char
utf8_char-IsByte c h = ground arith

pub encode_utf8-IsByte : (s : Text) → All IsChar s → All IsByte (encode_utf8 s)
unfolding encode_utf8
encode_utf8-IsByte [] h = tt
encode_utf8-IsByte (c ∷ s) (h, hs) =
    All-append IsByte (utf8_char c) (encode_utf8 s) (utf8_char-IsByte c h) (encode_utf8-IsByte s hs)

-- what a byte is as the first of a character: the bytes that follow, and the bits that it gives
lead : ℕ → Option (ℕ × ℕ)
lead b =
    if ltb b 0x80
    then some (0, b)
    else if leb 0xC2 b && leb b 0xDF
    then some (1, b - 0xC0)
    else if leb 0xE0 b && leb b 0xEF
    then some (2, b - 0xE0)
    else if leb 0xF0 b && leb b 0xF4
    then some (3, b - 0xF0)
    else none

-- the least character of each length
least : ℕ → ℕ
least zero = 0
least (suc zero) = 0x80
least (suc (suc zero)) = 0x800
least _ = 0x10000

unfoldable pub is_scalar : ℕ → Bool
is_scalar c = ltb c 0x110000 && not (leb 0xD800 c && leb c 0xDFFF)

cons? : ℕ → Option Text → Option Text
cons? c none = none
cons? c (some s) = some (c ∷ s)

-- `due` bytes of a character of `follow` following bytes are still to come, and `bits` are read.
decode_from : (follow due bits : ℕ) → Bytes → Option Text
decode_from follow zero bits [] = some []
decode_from follow (suc due) bits [] = none
decode_from follow zero bits (b ∷ s) = elim (lead b) [
  | none ↦ none
  | some (n, v) ↦ elim n [
    | zero ↦ cons? v (decode_from 0 0 0 s)
    | suc m ↦ decode_from (suc m) (suc m) v s
  ]
]
decode_from follow (suc due) bits (b ∷ s) =
    let c = bits * 0x40 + (b - 0x80) in
    let done = cons? c (decode_from 0 0 0 s) in
    let more = decode_from follow due c s in
    if not (leb 0x80 b && leb b 0xBF)
    then none
    else if not (due == 0)
    then more
    else if leb (least follow) c && is_scalar c
    then done
    else none

unfoldable pub decode_utf8 : Bytes → Option Text
unfolding lead least is_scalar cons? decode_from
decode_utf8 s = decode_from 0 0 0 s

pub encode_utf8-ascii : (s : Text) → All (λ c. c < 128) s → encode_utf8 s ≡ s
unfolding encode_utf8 utf8_char
encode_utf8-ascii [] h = refl
encode_utf8-ascii (c ∷ s) (h, hs) = ground (arith, encode_utf8-ascii s hs)

decode_from-ascii : (s : Bytes) → All (λ c. c < 128) s → decode_from 0 0 0 s ≡ some s
unfolding decode_from lead cons?
decode_from-ascii [] h = refl
decode_from-ascii (c ∷ s) (h, hs) = ground (arith, decode_from-ascii s hs)

pub decode_utf8-ascii : (s : Bytes) → All (λ c. c < 128) s → decode_utf8 s ≡ some s
unfolding decode_utf8
decode_utf8-ascii s h = decode_from-ascii s h
