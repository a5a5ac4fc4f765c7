-- ===== src/Codec/Ascii.antt =====
-- ASCII text is its own encoding under every codec.
use httpxp.Prelude.{All, Text, [], all, arith, ltb, refl, true, ℕ, ◌<◌, ◌∷◌, ◌≡◌, ◌≤◌}
use httpxp.Exceptions.Result.{ok}
use httpxp.Codec.{Encoding, ascii, utf8, latin1, encode, decode}
use httpxp.Codec.Utf8.{encode_utf8-ascii, decode_utf8-ascii}

abbrev pub IsAscii : Text → Type 0
IsAscii s = All (λ c. c < 128) s

all-lt : (n : ℕ) (s : Text) → 128 ≤ n → IsAscii s → all (λ c. ltb c n) s ≡ true
all-lt n [] h k = refl
all-lt n (c ∷ s) h (k, ks) = ground (arith, all-lt n s h ks)

pub encode-ascii : (e : Encoding) (s : Text) → IsAscii s → encode e s ≡ ok s
unfolding encode
encode-ascii ascii s h = rw (all-lt 128 s (omega arith) h)
encode-ascii utf8 s h = rw (encode_utf8-ascii s h)
encode-ascii latin1 s h = rw (all-lt 256 s (omega arith) h)

pub decode-ascii : (e : Encoding) (s : Text) → IsAscii s → decode e s ≡ ok s
unfolding decode
decode-ascii ascii s h = rw (all-lt 128 s (omega arith) h)
decode-ascii utf8 s h = ground (arith, decode_utf8-ascii s h)
decode-ascii latin1 s h = refl
