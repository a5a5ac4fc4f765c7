-- ===== src/Multipart/Boundary.antt =====
-- The boundary of a form is read back from its content type.
use httpxp.Codec.{ascii, decode}
use httpxp.Dict.{Dict}
use httpxp.Multipart.{
  FormValue, FileTypes, Platform, MultipartStream, init, given_boundary, Dict, decode,
  get_multipart_boundary_from_content_type, is_byte_space, strip_of, boundary_of,
}
use httpxp.Exceptions.Result.{ok}
use httpxp.Prelude.{
  Bool, Bytes, List, Text, [], all, all-reverse, ap, arith, codes, false, lower, lower_char, lstrip,
  ltb, mem, not, refl, reverse, rstrip, some, split, starts_with, true, ℕ, ◌&&◌, ◌++◌, ◌==◌, ◌∙◌,
  ◌∷◌, ◌≡◌, nat_eq, list_eq,
}
use mathlib.Core.List.{reverse, reverse-reverse}

-- A character that a boundary may hold: ASCII, no separator, no quote and no space.
abbrev pub is_boundary_char : ℕ → Bool
is_boundary_char c = ltb 0x20 c && ltb c 0x80 && not (c == b';') && not (c == b'"')

lstrip-none : (p : ℕ → Bool) (s : Text) → all (λ c. not (p c)) s ≡ true → lstrip p s ≡ s
unfolding lstrip
lstrip-none p [] h = refl
lstrip-none p (c ∷ s) h = ground arith

rstrip-none : (p : ℕ → Bool) (s : Text) → all (λ c. not (p c)) s ≡ true → rstrip p s ≡ s
unfolding rstrip
rstrip-none p s h =
    ap (reverse {A = ℕ}) (lstrip-none p (reverse s) (all-reverse (λ (c : ℕ). not (p c)) s ∙ h))
    ∙ reverse-reverse s

strip_of-none : (p : ℕ → Bool) (s : Text) → all (λ c. not (p c)) s ≡ true → strip_of p s ≡ s
unfolding strip_of
strip_of-none p s h = rw (lstrip-none p s h) (rstrip-none p s h)

split-none : (sep : ℕ) (s : Text) → mem sep s ≡ false → split sep s ≡ s ∷ []
unfolding split
split-none sep [] h = refl
split-none sep (c ∷ s) h = ground (arith, split-none sep s)

all-implies :
    (p q : ℕ → Bool) (s : Text)
    → ((c : ℕ) → p c ≡ true → q c ≡ true)
    → all p s ≡ true
    → all q s ≡ true
all-implies p q [] k h = refl
all-implies p q (c ∷ s) k h = ground (arith, k c, all-implies p q s k)

not_mem-of_boundary : (s : Text) → all is_boundary_char s ≡ true → mem b';' s ≡ false
not_mem-of_boundary [] h = refl
not_mem-of_boundary (c ∷ s) h = ground (arith, not_mem-of_boundary s)

no_space-of_boundary : (c : ℕ) → is_boundary_char c ≡ true → not (is_byte_space c) ≡ true
unfolding is_byte_space
no_space-of_boundary c h = ground arith

no_quote-of_boundary : (c : ℕ) → is_boundary_char c ≡ true → not (c == b'"') ≡ true
no_quote-of_boundary c h = ground arith

lstrip-section :
    (b : Bytes) → lstrip is_byte_space (codes " boundary=" ++ b) ≡ codes "boundary=" ++ b
unfolding lstrip is_byte_space
lstrip-section b = refl

no_space-section :
    (b : Bytes)
    → all is_boundary_char b ≡ true
    → all (λ c. not (is_byte_space c)) (codes "boundary=" ++ b) ≡ true
unfolding is_byte_space
no_space-section b h =
    all-implies is_boundary_char (λ c. not (is_byte_space c)) b no_space-of_boundary h

strip_of-section :
    (b : Bytes)
    → all is_boundary_char b ≡ true
    → strip_of is_byte_space (codes " boundary=" ++ b) ≡ codes "boundary=" ++ b
unfolding strip_of
strip_of-section b h =
    ap (rstrip is_byte_space) (lstrip-section b)
    ∙ rstrip-none is_byte_space (codes "boundary=" ++ b) (no_space-section b h)

boundary_of-section :
    (b : Bytes)
    → all is_boundary_char b ≡ true
    → boundary_of ((codes " boundary=" ++ b) ∷ []) ≡ some b
unfolding boundary_of starts_with lower lower_char
boundary_of-section b h = rw (strip_of-section b h) (
    ap (λ t. some t)
      (strip_of-none (λ c. c == b'"') b
        (all-implies is_boundary_char (λ c. not (c == b'"')) b no_quote-of_boundary h)))

split-content_type :
    (b : Bytes)
    → mem b';' b ≡ false
    → split b';' (codes "multipart/form-data; boundary=" ++ b)
      ≡ codes "multipart/form-data" ∷ (codes " boundary=" ++ b) ∷ []
unfolding split
split-content_type b h = rw (split-none b';' b h) refl

read-content_type :
    (b : Bytes)
    → all is_boundary_char b ≡ true
    → get_multipart_boundary_from_content_type (codes "multipart/form-data; boundary=" ++ b)
      ≡ some b
unfolding get_multipart_boundary_from_content_type starts_with
read-content_type b h = rw (split-content_type b (not_mem-of_boundary b h)) (
    unfold boundary_of strip_of is_byte_space lstrip rstrip lower lower_char in
    boundary_of-section b h)

decode-boundary : (b : Bytes) → all is_boundary_char b ≡ true → decode ascii b ≡ ok b
unfolding decode
decode-boundary b h = rw (all-implies is_boundary_char (λ c. ltb c 128) b (λ c k. ground arith) h)

-- A stream that is made with a boundary of such characters names it in its content type, from which
-- the boundary is read back.
pub init-boundary :
    (p : Platform) (form : Dict FormValue) (files : List (Text × FileTypes)) (b : Bytes)
    (s : MultipartStream)
    → all is_boundary_char b ≡ true
    → init p form files (some b) ≡ ok s
    → (s.boundary ≡ b) × (get_multipart_boundary_from_content_type s.content_type ≡ some b)
unfolding init given_boundary
init-boundary p form files b s h e = ground (arith, decode-boundary b h, read-content_type b h)
