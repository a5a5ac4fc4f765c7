-- ===== src/Decoders/Content/Frames.antt =====
-- The loop over the frames of zstandard ends.
use httpxp.Decoders.Content.{zstd_frames, then_frames, Codecs, frames}
use httpxp.Prelude.{
  Bool, Bool-cases, Bytes, Option, [], arith, false, inl, inr, is_nil, length, none, not, refl,
  some, suc, true, zero, ℕ, ◌&&◌, ◌<◌, ◌∷◌, ◌≡◌, ◌≤◌,
}

is_nil-of_length : (s : Bytes) → length s ≤ 0 → is_nil s ≡ true
is_nil-of_length [] h = refl
is_nil-of_length (c ∷ s) h = absurd (omega arith)

length_pos-of_more : (b : Bool) (s : Bytes) → (b && not (is_nil s)) ≡ true → 0 < length s
length_pos-of_more b [] h = absurd (ground arith)
length_pos-of_more b (c ∷ s) h = omega arith

module _ {D : Type 0} (codecs : Codecs D) where
  -- A new decompressor that is given something raises, or takes a part of it.
  abbrev pub IsConsuming : Type 0
  IsConsuming =
      (content out : Bytes)
      → 0 < length content
      → (codecs.zstd_decompress content codecs.zstd_object).0 ≡ some out
      → length (codecs.zstd_unused_data (codecs.zstd_decompress content codecs.zstd_object).1)
        < length content

  -- The condition of the loop is false, or an error has left it.
  abbrev pub HasEnded : Option Bytes × D → Type 0
  HasEnded (none, d) = Unit
  HasEnded (some output, d) =
      (codecs.zstd_eof d && not (is_nil (codecs.zstd_unused_data d))) ≡ false

  HasEnded-of_empty :
      (output : Bytes) (d : D) → length (codecs.zstd_unused_data d) ≤ 0 → HasEnded (some output, d)
  HasEnded-of_empty output d h = rw (is_nil-of_length (codecs.zstd_unused_data d) h) (ground arith)

  and_then-HasEnded :
      (loop : Bytes → D → Option Bytes × D) (r : Option Bytes × D)
      → ((more : Bytes) → r.0 ≡ some more → HasEnded (loop more r.1))
      → HasEnded (then_frames loop r)
  unfolding then_frames
  and_then-HasEnded loop (none, d) h = tt
  and_then-HasEnded loop (some more, d) h = h more refl

  frames-HasEnded :
      IsConsuming
      → (fuel : ℕ) (output : Bytes) (d : D) → length (codecs.zstd_unused_data d) ≤ fuel
      → HasEnded (frames codecs fuel output d)
  unfolding frames
  frames-HasEnded h zero output d k = HasEnded-of_empty output d k
  frames-HasEnded h (suc fuel) output d k =
      elim (Bool-cases (codecs.zstd_eof d && not (is_nil (codecs.zstd_unused_data d)))) [
        | inl e ↦ rw e (
            and_then-HasEnded _ _ (λ more took.
              frames-HasEnded h fuel _ _ (
                omega (arith, h (codecs.zstd_unused_data d) more (length_pos-of_more _ _ e) took))))
        | inr e ↦ rw e e
      ]

  -- If a new decompressor that is given something raises or takes a part of it, the loop of the
  -- zstandard decoder ends because its condition is false or the package raises, so the fuel is
  -- enough, whatever the state of the decompressor and what its call has answered.
  pub zstd_frames-HasEnded : IsConsuming → (r : Option Bytes × D) → HasEnded (zstd_frames codecs r)
  unfolding zstd_frames
  zstd_frames-HasEnded h (none, d) = tt
  zstd_frames-HasEnded h (some output, d) =
      frames-HasEnded h (length (codecs.zstd_unused_data d)) output d (omega arith)
