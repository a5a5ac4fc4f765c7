-- ===== src/Codec/Utf8/RoundTrip.antt =====
-- UTF-8 reads back what it writes, of every character that is no surrogate.
use httpxp.Prelude.{
  All, Bool-cases, Bytes, Text, [], arith, concat, false, inl, inr, leb, ltb, map, refl, some, suc,
  true, ℕ, ◌%◌, ◌&&◌, ◌*◌, ◌++◌, ◌+◌, ◌-◌, ◌/◌, ◌<◌, ◌==◌, ◌∙◌, ◌∷◌, ◌≡◌, ◌≤◌, nat_eq,
}
use httpxp.Codec.Utf8.{
  encode_utf8, decode_utf8, cons?, decode_from, is_scalar, lead, least, utf8_char,
}

abbrev pub IsScalar : ℕ → Type 0
IsScalar c = is_scalar c ≡ true

is_following : (v : ℕ) → v < 0x40 → (leb 0x80 (0x80 + v) && leb (0x80 + v) 0xBF) ≡ true
is_following v h = ground arith

suc-ne-zero : (n : ℕ) → (suc n == 0) ≡ false
suc-ne-zero n = ground arith

-- a following byte
follow :
    (n due bits v : ℕ) (s : Bytes)
    → v < 0x40
    → decode_from n (suc (suc due)) bits ((0x80 + v) ∷ s)
      ≡ decode_from n (suc due) (bits * 0x40 + v) s
unfolding decode_from
follow n due bits v s h =
    let e : 0x80 + v - 0x80 ≡ v = omega arith in simp (is_following v h, suc-ne-zero due, e) refl

-- the last byte of a character
last :
    (n bits v c : ℕ) (s : Bytes)
    → v < 0x40
    → bits * 0x40 + v ≡ c
    → least n ≤ c
    → IsScalar c
    → decode_from n 1 bits ((0x80 + v) ∷ s) ≡ cons? c (decode_from 0 0 0 s)
unfolding decode_from
last n bits v c s h e l k =
    let f : 0x80 + v - 0x80 ≡ v = omega arith in
    let m : leb (least n) c ≡ true = ground arith in simp (is_following v h, f, e, m, k) refl

-- the first byte of a character of one, two, three and four bytes
lead-one : (v : ℕ) → v < 0x80 → lead v ≡ some (0, v)
unfolding lead
lead-one v h = ground arith

lead-two : (v : ℕ) → 2 ≤ v → v < 0x20 → lead (0xC0 + v) ≡ some (1, v)
unfolding lead
lead-two v l h = ground arith

lead-three : (v : ℕ) → v < 0x10 → lead (0xE0 + v) ≡ some (2, v)
unfolding lead
lead-three v h = ground arith

lead-four : (v : ℕ) → v < 5 → lead (0xF0 + v) ≡ some (3, v)
unfolding lead
lead-four v h = ground arith

alone :
    (v : ℕ) (s : Bytes)
    → lead v ≡ some (0, v)
    → decode_from 0 0 0 (v ∷ s) ≡ cons? v (decode_from 0 0 0 s)
unfolding decode_from
alone v s e = rw (e, decode_from)

first :
    (b m v : ℕ) (s : Bytes)
    → lead b ≡ some (suc m, v)
    → decode_from 0 0 0 (b ∷ s) ≡ decode_from (suc m) (suc m) v s
unfolding decode_from
first b m v s e = rw (e, decode_from)

scalar_bound : (c : ℕ) → IsScalar c → c / 0x40000 < 5
unfolding is_scalar
scalar_bound c h = ground (arith, h)

decode_from-utf8_char :
    (c : ℕ) (s : Bytes)
    → IsScalar c
    → decode_from 0 0 0 (utf8_char c ++ s) ≡ cons? c (decode_from 0 0 0 s)
unfolding utf8_char least
decode_from-utf8_char c s h = elim (Bool-cases (ltb c 0x80)) [
  | inl a ↦ simp a (alone c s (lead-one c (ground arith)))
  | inr a ↦ elim (Bool-cases (ltb c 0x800)) [
    | inl b ↦
        simp (a, b)
          (first _ 0 (c / 0x40) _ (lead-two (c / 0x40) (ground arith) (ground arith))
            ∙ last 1 (c / 0x40) (c % 0x40) c s (omega arith) (omega arith) (ground arith) h)
    | inr b ↦ elim (Bool-cases (ltb c 0x10000)) [
      | inl d ↦
          simp (a, b, d)
            (first _ 1 (c / 0x1000) _ (lead-three (c / 0x1000) (ground arith))
              ∙ follow 2 0 (c / 0x1000) (c / 0x40 % 0x40) _ (omega arith)
              ∙ last 2 (c / 0x1000 * 0x40 + c / 0x40 % 0x40) (c % 0x40) c s (omega arith)
                  (omega arith) (ground arith) h)
      | inr d ↦
          simp (a, b, d)
            (first _ 2 (c / 0x40000) _ (lead-four (c / 0x40000) (scalar_bound c h))
              ∙ follow 3 1 (c / 0x40000) (c / 0x1000 % 0x40) _ (omega arith)
              ∙ follow 3 0 (c / 0x40000 * 0x40 + c / 0x1000 % 0x40) (c / 0x40 % 0x40) _
                  (omega arith)
              ∙ last 3 ((c / 0x40000 * 0x40 + c / 0x1000 % 0x40) * 0x40 + c / 0x40 % 0x40)
                  (c % 0x40) c s (omega arith) (omega arith) (ground arith) h)
    ]
  ]
]

decode_from-encode :
    (s : Text) → All IsScalar s → decode_from 0 0 0 (concat (map utf8_char s)) ≡ some s
unfolding decode_from cons?
decode_from-encode [] h = refl
decode_from-encode (c ∷ s) (h, hs) = decode_from-utf8_char c _ h ∙ rw (decode_from-encode s hs) refl

pub decode_utf8-encode_utf8 : (s : Text) → All IsScalar s → decode_utf8 (encode_utf8 s) ≡ some s
unfolding decode_utf8 encode_utf8
decode_utf8-encode_utf8 s h = decode_from-encode s h
