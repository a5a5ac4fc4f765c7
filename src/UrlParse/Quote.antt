-- ===== src/UrlParse/Quote.antt =====
-- Percent-encoding, as `PERCENT`, `percent_encoded` and `quote` of httpxp/_urlparse.py do it.
mod Escaping
mod Loop
mod Quoted
mod Tests
use httpxp.Prelude.{
  Text, [], concat, if◌then◌else◌, is_nil, ltb, map, mem, rstrip, ℕ, ◌%◌, ◌++◌, ◌+◌, ◌/◌, ◌∷◌,
  nat_eq,
}
use httpxp.Codec.{encode_utf8}
use httpxp.UrlParse.Chars.{unreserved_characters, is_escape}

-- one digit of the format `X`
hex_digit : ℕ → ℕ
hex_digit d = if ltb d 10 then b'0' + d else 55 + d

-- `f"%{byte:02X}"`
unfoldable pub percent_byte : ℕ → Text
unfolding hex_digit
percent_byte b = b'%' ∷ hex_digit (b / 16) ∷ hex_digit (b % 16) ∷ []

pub percent : Text → Text
unfolding encode_utf8 percent_byte
percent s = concat (map percent_byte (encode_utf8 s))

abbrev non_escaped : Text → Text
non_escaped safe = unreserved_characters ++ safe

pub encode_char : Text → ℕ → Text
unfolding percent
encode_char safe c = if mem c (non_escaped safe) then c ∷ [] else percent (c ∷ [])

-- With the fast path for text that needs no escaping.
unfoldable pub percent_encoded : Text → Text → Text
unfolding encode_char rstrip unreserved_characters
percent_encoded string safe =
    if is_nil (rstrip (λ c. mem c (non_escaped safe)) string)
    then string
    else concat (map (encode_char safe) string)

-- the text between two escapes, which is appended if it is not empty
add_text : Text → Text → Text
unfolding percent_encoded
add_text safe text = if is_nil text then [] else percent_encoded text safe

-- The loop over the escapes, from left to right: `text` is what stands before the position and
-- behind the last escape.
quote_from : Text → Text → Text → Text
quote_from safe text [] = add_text safe text
quote_from safe text (c ∷ []) = add_text safe (text ++ c ∷ [])
quote_from safe text (c ∷ a ∷ []) = add_text safe (text ++ c ∷ a ∷ [])
quote_from safe text (c ∷ a ∷ b ∷ s) =
    let behind = quote_from safe [] s in
    let further = quote_from safe (text ++ c ∷ []) (a ∷ b ∷ s) in
    if is_escape c a b then add_text safe text ++ (c ∷ a ∷ b ∷ []) ++ behind else further

unfoldable pub quote : Text → Text → Text
unfolding quote_from add_text is_escape
quote string safe = quote_from safe [] string
