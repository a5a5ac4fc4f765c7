-- ===== src/Decoders/Content/Identity.antt =====
-- The decoder of a body that is not encoded.
use httpxp.Decoders.Content.{
  Codecs, decode, decode_single, flush, flush_single, identity, mapped, single,
}
use httpxp.Exceptions.Result.{ok}
use httpxp.Prelude.{Bytes, [], refl, ◌≡◌}

module _ {D : Type 0} (codecs : Codecs D) where
  pub decode-identity :
      (content : Bytes) → decode codecs (single identity) content ≡ (ok content, single identity)
  unfolding decode decode_single mapped
  decode-identity content = refl

  pub flush-identity : flush codecs (single identity) ≡ (ok [], single identity)
  unfolding flush flush_single mapped
  flush-identity = refl
