-- ===== src/UrlParse/Quote/Escaping.antt =====
-- `percent_encoded` is the same with and without its fast path.
use httpxp.Prelude.{
  Text, [], all, arith, concat, is_nil-rstrip, map, mem, refl, true, ℕ, ◌∷◌, ◌≡◌, nat_eq,
}
use httpxp.UrlParse.Quote.{non_escaped, encode_char, percent_encoded}

-- each character on its own
abbrev pub encode_all : Text → Text → Text
encode_all safe s = concat (map (encode_char safe) s)

encode_all-safe :
    (safe s : Text) → all (λ c. mem c (non_escaped safe)) s ≡ true → encode_all safe s ≡ s
unfolding encode_char
encode_all-safe safe [] h = refl
encode_all-safe safe (c ∷ s) h = ground (arith, encode_all-safe safe s)

-- The fast path of `percent_encoded` returns what escaping each character returns.
pub percent_encoded-eq-encode_all : (s safe : Text) → percent_encoded s safe ≡ encode_all safe s
unfolding percent_encoded
percent_encoded-eq-encode_all s safe =
    ground (arith, is_nil-rstrip (λ (c : ℕ). mem c (non_escaped safe)) s, encode_all-safe safe s)
