-- ===== src/UrlParse/Quote/Quoted.antt =====
-- Text in percent-encoded form, and that `quote` produces it and leaves it alone.
use httpxp.Prelude.{
  All, Bool-cases, Bytes, Text, [], all_below, all_below-at, ap, append-nil, arith, concat, false,
  inl, inr, map, mem, mem-append, not, refl, true, ℕ, ◌%◌, ◌++◌, ◌/◌, ◌<◌, ◌||◌, ◌∙◌, ◌∷◌, ◌≡◌,
  nat_eq,
}
use httpxp.Codec.{encode_utf8, IsChar, IsByte, encode_utf8-IsByte}
use httpxp.UrlParse.Chars.{is_escape, is_hex, unreserved_characters}
use httpxp.UrlParse.Quote.{
  non_escaped, encode_char, quote, hex_digit, percent_byte, percent, encode_utf8,
}
use httpxp.UrlParse.Quote.Loop.{quote_each, quote-eq-quote_each}

-- Characters that need no escape, and escapes.
pub data Quoted (safe : Text) : Text → Type 0 where
  done : Quoted safe []
  plain : {c : ℕ} {s : Text} → mem c (non_escaped safe) ≡ true → Quoted safe s → Quoted safe (c ∷ s)
  escaped :
      {c a b : ℕ} {s : Text} → is_escape c a b ≡ true → Quoted safe s → Quoted safe (c ∷ a ∷ b ∷ s)

hex_digit-is_hex : (d : ℕ) → d < 16 → is_hex (hex_digit d) ≡ true
unfolding hex_digit is_hex
hex_digit-is_hex d h = ground arith

is_escape-percent_byte :
    (b : ℕ) → b < 256 → is_escape b'%' (hex_digit (b / 16)) (hex_digit (b % 16)) ≡ true
unfolding is_escape
is_escape-percent_byte b h = ground (arith, hex_digit-is_hex (b / 16), hex_digit-is_hex (b % 16))

Quoted-percent_bytes :
    {safe : Text} (bs : Bytes) {s : Text}
    → All IsByte bs
    → Quoted safe s
    → Quoted safe (concat (map percent_byte bs) ++ s)
unfolding percent_byte
Quoted-percent_bytes [] h q = q
Quoted-percent_bytes (b ∷ bs) (h, hs) q =
    escaped (is_escape-percent_byte b h) (Quoted-percent_bytes bs hs q)

Quoted-encode_char :
    (safe : Text) (c : ℕ) {s : Text}
    → IsChar c
    → Quoted safe s
    → Quoted safe (encode_char safe c ++ s)
unfolding encode_char percent
Quoted-encode_char safe c h q = elim (Bool-cases (mem c (non_escaped safe))) [
  | inl e ↦ rw e (plain e q)
  | inr e ↦
      rw e (Quoted-percent_bytes (encode_utf8 (c ∷ [])) (encode_utf8-IsByte (c ∷ []) (h, tt)) q)
]

Quoted-quote_each : (safe s : Text) → All IsChar s → Quoted safe (quote_each safe s)
unfolding quote_each
Quoted-quote_each safe [] h = done
Quoted-quote_each safe (c ∷ []) (h, _) =
    rw (← append-nil (encode_char safe c)) (Quoted-encode_char safe c h done)
Quoted-quote_each safe (c ∷ a ∷ []) (h, k) =
    Quoted-encode_char safe c h
      (rw (← append-nil (encode_char safe a)) (Quoted-encode_char safe a k.0 done))
Quoted-quote_each safe (c ∷ a ∷ b ∷ s) (h, k) = elim (Bool-cases (is_escape c a b)) [
  | inl e ↦ rw e (escaped e (Quoted-quote_each safe s k.1.1))
  | inr e ↦ rw e (Quoted-encode_char safe c h (Quoted-quote_each safe (a ∷ b ∷ s) k))
]

-- Every character of a quoted text is unreserved, safe or part of an escape `%XX`, if the text holds
-- code points.
pub quote-Quoted : (s safe : Text) → All IsChar s → Quoted safe (quote s safe)
quote-Quoted s safe h = rw quote-eq-quote_each (Quoted-quote_each safe s h)

-- A hexadecimal digit is never escaped, and begins no escape.
hex-lt : (a : ℕ) → is_hex a ≡ true → a < 128
unfolding is_hex
hex-lt a h = ground arith

hex-not_escape : (a b c : ℕ) → is_hex a ≡ true → is_escape a b c ≡ false
unfolding is_hex is_escape
hex-not_escape a b c h = ground arith

hex_table : all_below 128 (λ a. not (is_hex a) || mem a unreserved_characters) ≡ true
unfolding all_below is_hex unreserved_characters
hex_table = refl

hex-non_escaped : (safe : Text) (a : ℕ) → is_hex a ≡ true → mem a (non_escaped safe) ≡ true
hex-non_escaped safe a h = ground (
  arith,
  all_below-at 128 (λ (a : ℕ). not (is_hex a) || mem a unreserved_characters) a hex_table,
  hex-lt a h,
  mem-append a unreserved_characters safe,
)

encode_char-safe :
    (safe : Text) (c : ℕ) → mem c (non_escaped safe) ≡ true → encode_char safe c ≡ c ∷ []
unfolding encode_char
encode_char-safe safe c h = rw h

quote_each-hex :
    (safe : Text) (a : ℕ) (s : Text)
    → is_hex a ≡ true
    → quote_each safe (a ∷ s) ≡ a ∷ quote_each safe s
unfolding quote_each
quote_each-hex safe a [] h = encode_char-safe safe a (hex-non_escaped safe a h)
quote_each-hex safe a (b ∷ []) h = rw (encode_char-safe safe a (hex-non_escaped safe a h))
quote_each-hex safe a (b ∷ c ∷ s) h =
    rw (encode_char-safe safe a (hex-non_escaped safe a h), hex-not_escape a b c h)

escape-hex : (c a b : ℕ) → is_escape c a b ≡ true → (is_hex a ≡ true) × (is_hex b ≡ true)
unfolding is_escape
escape-hex c a b h = ground arith

quote_each-escape :
    (safe : Text) (c a b : ℕ) (s : Text)
    → is_escape c a b ≡ true
    → quote_each safe (c ∷ a ∷ b ∷ s) ≡ c ∷ a ∷ b ∷ quote_each safe s
unfolding quote_each
quote_each-escape safe c a b s h = rw h

quote_each-plain :
    (safe : Text) (c : ℕ) (s : Text)
    → mem c (non_escaped safe) ≡ true
    → quote_each safe (c ∷ s) ≡ c ∷ quote_each safe s
unfolding quote_each
quote_each-plain safe c [] h = encode_char-safe safe c h
quote_each-plain safe c (a ∷ []) h = rw (encode_char-safe safe c h)
quote_each-plain safe c (a ∷ b ∷ s) h = elim (Bool-cases (is_escape c a b)) [
  | inl e ↦ rw (
    e,
    quote_each-hex safe a (b ∷ s) (escape-hex c a b e).0,
    quote_each-hex safe b s (escape-hex c a b e).1,
  )
  | inr e ↦ rw (e, encode_char-safe safe c h)
]

quote_each-of_Quoted : {safe s : Text} → Quoted safe s → quote_each safe s ≡ s
quote_each-of_Quoted done = unfold quote_each in refl
quote_each-of_Quoted {safe} (plain {c} {s} h q) =
    quote_each-plain safe c s h ∙ ap (λ t. c ∷ t) (quote_each-of_Quoted q)
quote_each-of_Quoted {safe} (escaped {c} {a} {b} {s} h q) =
    quote_each-escape safe c a b s h ∙ ap (λ t. c ∷ a ∷ b ∷ t) (quote_each-of_Quoted q)

-- Quoting the quoted form of a text of code points changes nothing.
pub quote-quote : (s safe : Text) → All IsChar s → quote (quote s safe) safe ≡ quote s safe
quote-quote s safe h =
    rw (quote-eq-quote_each (quote s safe) safe) (quote_each-of_Quoted (quote-Quoted s safe h))
