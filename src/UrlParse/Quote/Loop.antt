-- ===== src/UrlParse/Quote/Loop.antt =====
-- `quote` without its parts and positions: one pass that copies escapes and escapes the rest.
use httpxp.Prelude.{
  Bool-cases, Text, [], append-nil, append_assoc, if◌then◌else◌, inl, inr, refl, ◌++◌, ◌∷◌, ◌≡◌,
}
use httpxp.UrlParse.Chars.{is_escape}
use httpxp.UrlParse.Quote.{encode_char, add_text, quote_from, quote}
use httpxp.UrlParse.Quote.Escaping.{encode_all, percent_encoded-eq-encode_all}

-- The reference definition.
unfoldable pub quote_each : Text → Text → Text
quote_each safe [] = []
quote_each safe (c ∷ []) = encode_char safe c
quote_each safe (c ∷ a ∷ []) = encode_char safe c ++ encode_char safe a
quote_each safe (c ∷ a ∷ b ∷ s) =
    let behind = quote_each safe s in
    let further = quote_each safe (a ∷ b ∷ s) in
    if is_escape c a b then c ∷ a ∷ b ∷ behind else encode_char safe c ++ further

add_text-eq-encode_all : (safe text : Text) → add_text safe text ≡ encode_all safe text
unfolding add_text
add_text-eq-encode_all safe [] = refl
add_text-eq-encode_all safe (c ∷ s) = percent_encoded-eq-encode_all (c ∷ s) safe

encode_all-append :
    (safe s t : Text) → encode_all safe (s ++ t) ≡ encode_all safe s ++ encode_all safe t
encode_all-append safe [] t = refl
encode_all-append safe (c ∷ s) t = simp (encode_all-append safe s t, append_assoc)

quote_from-eq-quote_each :
    (safe text s : Text) → quote_from safe text s ≡ encode_all safe text ++ quote_each safe s
unfolding quote_from quote_each
quote_from-eq-quote_each safe text [] = simp (add_text-eq-encode_all, append-nil)
quote_from-eq-quote_each safe text (c ∷ []) =
    simp (add_text-eq-encode_all, encode_all-append, append-nil)
quote_from-eq-quote_each safe text (c ∷ a ∷ []) =
    simp (add_text-eq-encode_all, encode_all-append, append-nil)
quote_from-eq-quote_each safe text (c ∷ a ∷ b ∷ s) = elim (Bool-cases (is_escape c a b)) [
  | inl e ↦ rw e (simp (add_text-eq-encode_all, quote_from-eq-quote_each safe [] s, append_assoc))
  | inr e ↦ rw e (
      simp (
        quote_from-eq-quote_each safe (text ++ c ∷ []) (a ∷ b ∷ s),
        encode_all-append,
        append-nil,
        append_assoc,
      ))
]

-- `quote` copies each escape that it meets from left to right and escapes every other character.
pub quote-eq-quote_each : (s safe : Text) → quote s safe ≡ quote_each safe s
unfolding quote
quote-eq-quote_each s safe = quote_from-eq-quote_each safe [] s
