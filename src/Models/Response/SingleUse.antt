-- ===== src/Models/Response/SingleUse.antt =====
-- The stream of a response is used once.
use httpxp.Prelude.{Bytes, List, Option, Text, [], codes, none, ℕ, ◌∷◌}
use httpxp.Exceptions.Result.{Result, ok, err}
use httpxp.Client.Exec.{M}
use httpxp.Decoders.Content.{Codecs, ContentDecoder}
use httpxp.Models.Headers
use httpxp.Models.Headers.Exec.{Headers}
use httpxp.Models.Response.{
  Decoding, Response, close, collect, decode_end, decode_part, each, get_content_decoder,
  iter_bytes, iter_raw, new_decoder, outside, read, rejoin, slices, store, unread,
}
use httpxp.Models.Response.Kept.{
  IsSingleUse, option-keeps, close-IsSingleUse, seq-Keeps, outside-Keeps, iter_raw-IsSingleUse,
}

module _ {D : Type 0} (codecs : Codecs D) where
  new_decoder-IsSingleUse :
      (r : Response D) (p : Result (List Text) × Headers)
      → IsSingleUse r
      → IsSingleUse (new_decoder codecs r p).1
  unfolding new_decoder
  new_decoder-IsSingleUse r (ok values, headers) h = record {
    iterated = h.iterated;
    closed = h.closed;
  }
  new_decoder-IsSingleUse r (err e, headers) h = record { iterated = h.iterated; closed = h.closed }

  get_content_decoder-IsSingleUse :
      (r : Response D) → IsSingleUse r → IsSingleUse (get_content_decoder codecs r).1
  unfolding get_content_decoder
  get_content_decoder-IsSingleUse r h =
      option-keeps (λ p. IsSingleUse p.1) r.decoder
        (new_decoder codecs r (Headers.get_list (codes "content-encoding") r.headers))
        (λ d. (ok d, r)) (new_decoder-IsSingleUse r _ h) (λ d. h)

  module _ {S : Type 0} (body : Bytes → M S (Unit {0})) where
    rejoin-IsSingleUse :
        (p : Result (Unit {0}) × (Response D × Decoding codecs S))
        → IsSingleUse p.1.0
        → IsSingleUse (rejoin codecs body p).1.0
    unfolding rejoin
    rejoin-IsSingleUse p h = record { iterated = h.iterated; closed = h.closed }

    unread-IsSingleUse :
        (chunk_size : Option ℕ) (p : Result (ContentDecoder D) × Response D) (s : S)
        → IsSingleUse p.1
        → IsSingleUse (unread codecs body chunk_size p s).1.0
    unfolding unread
    unread-IsSingleUse chunk_size (err e, r) s h = h
    unread-IsSingleUse chunk_size (ok d, r) s h = rejoin-IsSingleUse _ (
        seq-Keeps (iter_raw none (decode_part codecs body)) (outside (decode_end codecs body))
          (λ w k. iter_raw-IsSingleUse (decode_part codecs body) none w.0 w.1 k)
          (outside-Keeps (decode_end codecs body)) (r, _) h)

    iter_bytes-IsSingleUse :
        (chunk_size : Option ℕ) (r : Response D) (s : S)
        → IsSingleUse r
        → IsSingleUse (iter_bytes codecs body chunk_size (r, s)).1.0
    unfolding iter_bytes
    iter_bytes-IsSingleUse chunk_size r s h =
        option-keeps (λ p. IsSingleUse p.1.0) r.content
          (unread codecs body chunk_size (get_content_decoder codecs r) s)
          (λ content. outside (each body (slices chunk_size content)) (r, s))
          (unread-IsSingleUse chunk_size _ s (get_content_decoder-IsSingleUse r h))
          (λ content. outside-Keeps (each body (slices chunk_size content)) (r, s) h)

  store-IsSingleUse :
      (p : Result (Unit {0}) × (Response D × List Bytes))
      → IsSingleUse p.1.0
      → IsSingleUse (store codecs p).1
  unfolding store
  store-IsSingleUse (err e, (r, chunks)) h = h
  store-IsSingleUse (ok _, (r, chunks)) h = record { iterated = h.iterated; closed = h.closed }

  read-IsSingleUse : (r : Response D) → IsSingleUse r → IsSingleUse (read codecs r).1
  unfolding read
  read-IsSingleUse r h =
      option-keeps (λ p. IsSingleUse p.1) r.content
        (store codecs (iter_bytes codecs (collect codecs) none (r, [])))
        (λ content. (ok content, r))
        (store-IsSingleUse _ (iter_bytes-IsSingleUse (collect codecs) none r [] h)) (λ content. h)

-- One use of a response, with the body of the loop and its variables.
pub data Use (S : Type 0) : Type 0 where
  raw : Option ℕ → (Bytes → M S (Unit {0})) → S → Use S
  bytes : Option ℕ → (Bytes → M S (Unit {0})) → S → Use S
  whole : Use S
  closing : Use S

module _ {D : Type 0} (codecs : Codecs D) {S : Type 0} where
  -- The response behind a use, whether it raised or not.
  pub used : Use S → Response D → Response D
  used (raw chunk_size body s) r = (iter_raw chunk_size body (r, s)).1.0
  used (bytes chunk_size body s) r = (iter_bytes codecs body chunk_size (r, s)).1.0
  used whole r = (read codecs r).1
  used closing r = (close r).1

  -- The response behind some uses, one after the other.
  pub used_all : List (Use S) → Response D → Response D
  used_all [] r = r
  used_all (use_of ∷ uses) r = used_all uses (used use_of r)

  used-IsSingleUse : (u : Use S) (r : Response D) → IsSingleUse r → IsSingleUse (used u r)
  unfolding used
  used-IsSingleUse (raw chunk_size body s) r h = iter_raw-IsSingleUse body chunk_size r s h
  used-IsSingleUse (bytes chunk_size body s) r h =
      iter_bytes-IsSingleUse codecs body chunk_size r s h
  used-IsSingleUse whole r h = read-IsSingleUse codecs r h
  used-IsSingleUse closing r h = close-IsSingleUse r h

  -- Of a response whose marks count the uses of its stream, after loops over it with any bodies,
  -- readings and closings in any order and number, whether they raise or not, the marks still count
  -- them: the stream was iterated at most once and closed at most once.
  pub used_all-IsSingleUse :
      (uses : List (Use S)) (r : Response D) → IsSingleUse r → IsSingleUse (used_all uses r)
  unfolding used_all
  used_all-IsSingleUse [] r h = h
  used_all-IsSingleUse (u ∷ uses) r h =
      used_all-IsSingleUse uses (used u r) (used-IsSingleUse u r h)
