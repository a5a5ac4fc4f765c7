-- ===== src/Multipart/Params.antt =====
-- No parameter of a form can leave its quotes or its line.
use httpxp.Prelude.{
  All, All-append, Bool, Bytes, List, Text, [], arith, codes, concat, concat-append, ltb, map, not,
  refl, true, ℕ, ◌&&◌, ◌++◌, ◌==◌, ◌||◌, ◌∷◌, ◌≡◌, nat_eq,
}
use mathlib.Core.List.{map-append}
use httpxp.Codec.{encode_utf8}
use httpxp.Multipart.{format_form_param, replaced, replace_all}

-- no quote and nothing below 0x20 but escape
abbrev pub is_param : ℕ → Bool
is_param c = not (c == b'"') && (ltb 0x1F c || c == 0x1B)

abbrev pub IsParam : List ℕ → Type 0
IsParam s = All (λ c. is_param c ≡ true) s

encode_utf8-append : (s t : Text) → encode_utf8 (s ++ t) ≡ encode_utf8 s ++ encode_utf8 t
unfolding encode_utf8
encode_utf8-append s t = rw (map-append, concat-append)

replaced-IsParam : (c : ℕ) → IsParam (replaced c)
unfolding replaced
replaced-IsParam c = ground arith

replace_all-IsParam : (s : Text) → IsParam (replace_all s)
unfolding replace_all
replace_all-IsParam [] = tt
replace_all-IsParam (c ∷ s) =
    All-append (λ x. is_param x ≡ true) (replaced c) (concat (map replaced s)) (replaced-IsParam c)
      (replace_all-IsParam s)

encode_char-IsParam : (c : ℕ) → is_param c ≡ true → IsParam (encode_utf8 (c ∷ []))
unfolding encode_utf8
encode_char-IsParam c h = ground arith

encode_utf8-IsParam : (s : Text) → IsParam s → IsParam (encode_utf8 s)
encode_utf8-IsParam [] h = unfold encode_utf8 in tt
encode_utf8-IsParam (c ∷ s) (h, hs) = rw (encode_utf8-append (c ∷ []) s) (
    All-append (λ x. is_param x ≡ true) (encode_utf8 (c ∷ [])) (encode_utf8 s)
      (encode_char-IsParam c h) (encode_utf8-IsParam s hs))

-- A parameter is its name, an equals sign and a body in quotes; whatever the value is, the body
-- holds no quote and nothing below 0x20 but escape (0x1B), so neither the quotes nor the line end in it.
pub format_form_param_lem :
    (name value : Text)
    → (body : Bytes) × (format_form_param name value
        ≡ encode_utf8 name ++ (codes "=\"" ++ (body ++ codes "\"")))
      × IsParam body
unfolding format_form_param
format_form_param_lem name value = (
  encode_utf8 (replace_all value),
  rw
      (
        encode_utf8-append name (codes "=\"" ++ (replace_all value ++ codes "\"")),
        encode_utf8-append (codes "=\"") (replace_all value ++ codes "\""),
        encode_utf8-append (replace_all value) (codes "\""),
      )
      (unfold encode_utf8 in refl),
  encode_utf8-IsParam (replace_all value) (replace_all-IsParam value),
)
