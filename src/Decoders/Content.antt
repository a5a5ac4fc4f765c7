-- ===== src/Decoders/Content.antt =====
-- The content decoders of httpxp/_decoders.py. The decompressors of zlib, brotli and zstandard are
-- objects of a type that is a parameter; a method returns the object beside the result.
mod Frames
pub mod Identity
mod Tests
use httpxp.Prelude.{
  Bool, Bytes, List, Option, Text, [], codes, false, if◌then◌else◌, is_nil, length, none, not,
  reverse, some, suc, true, zero, ℕ, ◌&&◌, ◌++◌, ◌==◌, ◌∷◌, nat_eq, list_eq,
}
use httpxp.Exceptions.{decoding_error}
use httpxp.Exceptions.Result.{Result, ok, err, ◌>>=◌}

-- What the packages offer; `none` is their error. No answer is said to be right.
pub record Codecs (D : Type 0) : Type 0 where
  -- `zlib.decompressobj()`, with `-zlib.MAX_WBITS` and with `zlib.MAX_WBITS | 16`
  pub zlib_object : D
  pub raw_object : D
  pub gzip_object : D
  pub zlib_decompress : Bytes → D → Option Bytes × D
  pub zlib_flush : D → Option Bytes × D
  pub brotli_object : D
  pub brotli_decompress : Bytes → D → Option Bytes × D
  -- `finish` where the package has it: whether it raises nothing
  pub brotli_finish : D → Bool
  pub zstd_object : D
  pub zstd_decompress : Bytes → D → Option Bytes × D
  pub zstd_eof : D → Bool
  pub zstd_unused_data : D → Bytes
  pub zstd_flush : D → Bytes × D
  -- whether the optional packages are installed
  pub has_brotli : Bool
  pub has_zstandard : Bool

-- A decoder for one encoding, with its fields.
pub data Single (D : Type 0) : Type 0 where
  identity : Single D
  -- `first_attempt` and `decompressor`
  deflate : Bool → D → Single D
  gzip : D → Single D
  -- `decompressor` and `seen_data`
  brotli : D → Bool → Single D
  zstd : D → Bool → Single D

-- `MultiDecoder` is only built of decoders for one encoding.
pub data ContentDecoder (D : Type 0) : Type 0 where
  single : Single D → ContentDecoder D
  multi : List (Single D) → ContentDecoder D

-- `raise DecodingError` for an error of the package
or_decoding_error {ℓ} : {A : Type ℓ} → Option A → Result A
or_decoding_error none = err decoding_error
or_decoding_error (some a) = ok a

-- an error of the package leaves the loop
then_frames : {D : Type 0} → (Bytes → D → Option Bytes × D) → Option Bytes × D → Option Bytes × D
then_frames loop (none, d) = (none, d)
then_frames loop (some more, d) = loop more d

-- the object a result stands beside, put in its place
mapped : {A S T : Type 0} → (S → T) → Result A × S → Result A × T
mapped wrap (r, s) = (r, wrap s)

module _ {D : Type 0} (codecs : Codecs D) where
  -- what a call of `decompress` leaves of the decoder around the object
  decompressed : (D → Single D) → Option Bytes × D → Result Bytes × Single D
  decompressed wrap (r, d) = (or_decoding_error r, wrap d)

  -- the `try` block of `DeflateDecoder.decode`, and its second attempt on the raw format
  deflated : Bool → Bytes → Option Bytes × D → Result Bytes × Single D
  deflated was_first content (some out, d) = (ok out, deflate false d)
  deflated true content (none, d) =
      decompressed (deflate false) (codecs.zlib_decompress content codecs.raw_object)
  deflated false content (none, d) = (err decoding_error, deflate false d)

  -- `while self.decompressor.eof and self.decompressor.unused_data`, with fuel; the first argument
  -- after it is the output so far
  pub frames : ℕ → Bytes → D → Option Bytes × D
  frames zero output d = (some output, d)
  frames (suc fuel) output d =
      let next =
        then_frames (λ more. frames fuel (output ++ more))
          (codecs.zstd_decompress (codecs.zstd_unused_data d) codecs.zstd_object) in
      if codecs.zstd_eof d && not (is_nil (codecs.zstd_unused_data d))
      then next
      else (some output, d)

  -- each frame takes something of what the one before has left
  pub zstd_frames : Option Bytes × D → Option Bytes × D
  zstd_frames (none, d) = (none, d)
  zstd_frames (some output, d) = frames (length (codecs.zstd_unused_data d)) output d

  decode_single : Single D → Bytes → Result Bytes × Single D
  decode_single identity content = (ok content, identity)
  decode_single (deflate first_attempt d) content =
      deflated first_attempt content (codecs.zlib_decompress content d)
  decode_single (gzip d) content = decompressed gzip (codecs.zlib_decompress content d)
  decode_single (brotli d seen_data) content =
      if is_nil content
      then (ok [], brotli d seen_data)
      else decompressed (λ d'. brotli d' true) (codecs.brotli_decompress content d)
  decode_single (zstd d seen_data) content =
      decompressed (λ d'. zstd d' true) (zstd_frames (codecs.zstd_decompress content d))

  flush_zstd : Bytes × D → Result Bytes × Single D
  flush_zstd (out, d) = (if codecs.zstd_eof d then ok out else err decoding_error, zstd d true)

  flush_single : Single D → Result Bytes × Single D
  flush_single identity = (ok [], identity)
  flush_single (deflate first_attempt d) =
      decompressed (deflate first_attempt) (codecs.zlib_flush d)
  flush_single (gzip d) = decompressed gzip (codecs.zlib_flush d)
  flush_single (brotli d false) = (ok [], brotli d false)
  flush_single (brotli d true) =
      (if codecs.brotli_finish d then ok [] else err decoding_error, brotli d true)
  flush_single (zstd d false) = (ok [], zstd d false)
  flush_single (zstd d true) = flush_zstd (codecs.zstd_flush d)

  -- a child has answered; an error leaves the later children as they are
  then_children :
      (Bytes → Result Bytes × List (Single D))
      → List (Single D)
      → Result Bytes × Single D
      → Result Bytes × List (Single D)
  then_children later cs (err e, c) = (err e, c ∷ cs)
  then_children later cs (ok out, c) = mapped (λ cs'. c ∷ cs') (later out)

  -- the loops of `MultiDecoder`: each child on what the one before gave
  decode_children : List (Single D) → Bytes → Result Bytes × List (Single D)
  decode_children [] content = (ok content, [])
  decode_children (c ∷ cs) content = then_children (decode_children cs) cs (decode_single c content)

  after : Bytes → Result Bytes × Single D → Result Bytes × Single D
  after out (r, c) = ((do rest ← r; ok (out ++ rest)), c)

  then_flush : Result Bytes × Single D → Result Bytes × Single D
  then_flush (err e, c) = (err e, c)
  then_flush (ok out, c) = after out (flush_single c)

  -- `child.decode(data) + child.flush()`
  drain : Single D → Bytes → Result Bytes × Single D
  drain c content = then_flush (decode_single c content)

  flush_children : List (Single D) → Bytes → Result Bytes × List (Single D)
  flush_children [] content = (ok content, [])
  flush_children (c ∷ cs) content = then_children (flush_children cs) cs (drain c content)

  pub decode : ContentDecoder D → Bytes → Result Bytes × ContentDecoder D
  decode (single c) content = mapped single (decode_single c content)
  decode (multi cs) content = mapped multi (decode_children cs content)

  pub flush : ContentDecoder D → Result Bytes × ContentDecoder D
  flush (single c) = mapped single (flush_single c)
  flush (multi cs) = mapped multi (flush_children cs [])

  -- `SUPPORTED_DECODERS[value]()`, less the encodings whose package is missing
  supported : Text → Option (Single D)
  supported value =
      if value == codes "identity"
      then some identity
      else if value == codes "gzip"
      then some (gzip codecs.gzip_object)
      else if value == codes "deflate"
      then some (deflate true codecs.zlib_object)
      else if value == codes "br" && codecs.has_brotli
      then some (brotli codecs.brotli_object false)
      else if value == codes "zstd" && codecs.has_zstandard
      then some (zstd codecs.zstd_object false)
      else none

  decoders_of : List Text → List (Single D)
  decoders_of [] = []
  decoders_of (value ∷ values) =
      let later = decoders_of values in elim (supported value) [ none ↦ later | some d ↦ d ∷ later ]

  -- the branches of `_get_content_decoder` on the number of decoders
  pub combined : List (Single D) → ContentDecoder D
  combined [] = single identity
  combined (d ∷ []) = single d
  combined (d ∷ e ∷ ds) = multi (reverse (d ∷ e ∷ ds))

  pub decoder_for : List Text → ContentDecoder D
  decoder_for values = combined (decoders_of values)
