-- ===== src/Decoders/Content/Tests.antt =====
-- A run of a decoder on several frames, and the theorem at an input.
use httpxp.Decoders.Content.{
  Codecs, decode, decode_single, decompressed, frames, mapped, multi, or_decoding_error,
  then_children, then_frames, decode_children, zstd, zstd_frames, identity,
}
use httpxp.Decoders.Content.Frames.{HasEnded, IsConsuming, zstd_frames-HasEnded}
use httpxp.Exceptions.Result.{ok}
use httpxp.Prelude.{
  Bytes, [], arith, codes, drop, if◌then◌else◌, is_nil, length, none, refl, some, take, true, ◌<◌,
  ◌∷◌, ◌≡◌,
}

-- Each frame is one byte. A new decompressor is nothing; it keeps what it does not use, and raises if
-- it is called again.
abbrev codecs : Codecs Bytes
codecs = record {
  zlib_object = [];
  raw_object = [];
  gzip_object = [];
  zlib_decompress = λ content d. (none, d);
  zlib_flush = λ d. (none, d);
  brotli_object = [];
  brotli_decompress = λ content d. (none, d);
  brotli_finish = λ d. true;
  zstd_object = [];
  zstd_decompress =
      λ content d. if is_nil d then (some (take 1 content), drop 1 content) else (none, d);
  zstd_eof = λ d. true;
  zstd_unused_data = λ d. d;
  zstd_flush = λ d. ([], d);
  has_brotli = true;
  has_zstandard = true;
}

three_frames :
    decode codecs (multi (zstd [] true ∷ identity ∷ [])) (codes "abc")
    ≡ (ok (codes "abc"), multi (zstd [] true ∷ identity ∷ []))
unfolding decode decode_children decode_single zstd_frames frames then_frames then_children
    decompressed mapped or_decoding_error
three_frames = refl

length-drop_lt : (s : Bytes) → 0 < length s → length (drop 1 s) < length s
length-drop_lt [] h = absurd (omega arith)
length-drop_lt (c ∷ s) h = omega arith

codecs-IsConsuming : IsConsuming codecs
codecs-IsConsuming content out h e = length-drop_lt content h

zstd_frames-HasEnded_example : HasEnded codecs (zstd_frames codecs (some [], codes "abc"))
zstd_frames-HasEnded_example = zstd_frames-HasEnded codecs codecs-IsConsuming (some [], codes "abc")
