-- ===== src/Codec/Tests.antt =====
-- Runs of the codecs.
use httpxp.Prelude.{[], codes, none, refl, some, ◌∷◌, ◌≡◌}
use httpxp.Codec.Utf8.{encode_utf8, decode_utf8}

utf8_test :
    (decode_utf8 (encode_utf8 (codes "aé€😀")) ≡ some (codes "aé€😀"))
    × (decode_utf8 (0xC0 ∷ 0x80 ∷ []) ≡ none)
    × (decode_utf8 (0xED ∷ 0xA0 ∷ 0x80 ∷ []) ≡ none)
unfolding encode_utf8 decode_utf8
utf8_test = (refl, refl, refl)
