-- ===== src/Models/Response.antt =====
-- Reading the body of `Response` of httpxp/_models.py. A generator method stands with the body of
-- the loop over it, an action on the variables of the loop: `r.iter_bytes(n)` with the body `f` is
-- `for chunk in r.iter_bytes(n): f(chunk)`, so the two sides take turns as they do in the code. A loop
-- is run to its end or to an exception.
mod Whole
mod Finished
mod Kept
mod SingleUse
mod Chunks
mod Tests
use httpxp.Prelude.{
  Bool, Bytes, List, Option, Text, [], codes, concat, drop, if◌then◌else◌, is_nil, length, lower,
  map, none, not, some, split, strip, suc, take, true, zero, ℕ, ◌++◌, ◌+◌, ◌∷◌,
}
use httpxp.Exceptions.{response_not_read, runtime_error, stream_closed, stream_consumed}
use httpxp.Exceptions.Result.{Result, ok, err}
use httpxp.Client.Exec.{M, lift, pure, ◌>>=◌, ◌>>◌}
use httpxp.Decoders.Chunker
use httpxp.Decoders.Chunker.{ByteChunker, Chunker}
use httpxp.Decoders.Content
use httpxp.Decoders.Content.{Codecs, ContentDecoder, decoder_for}
use httpxp.Models.Headers
use httpxp.Models.Headers.Exec.{Headers}

-- What a stream of a transport does: the parts it gives, what its iteration and its `close` end
-- with, and whether it is a `SyncByteStream`. It counts how often it is iterated and closed.
pub record Stream : Type 0 where
  pub parts : List Bytes
  pub ending : Result (Unit {0})
  pub closing : Result (Unit {0})
  pub is_sync : Bool
  pub iterations : ℕ
  pub closings : ℕ

pub record Response (D : Type 0) : Type 0 where
  pub headers : Headers
  pub stream : Stream
  pub is_closed : Bool
  pub is_stream_consumed : Bool
  pub num_bytes_downloaded : ℕ
  -- the attributes that are set when they are first used
  pub content : Option Bytes
  pub decoder : Option (ContentDecoder D)

-- `for chunk in chunks: yield chunk`
pub each : {S : Type 0} → (Bytes → M S (Unit {0})) → List Bytes → M S (Unit {0})
each body [] = pure tt
each body (chunk ∷ chunks) = do body chunk; each body chunks

-- an action on the variables of the loop
pub outside : {R S A : Type 0} → M S A → M (R × S) A
outside m (r, s) = let (a, s') = m s in (a, (r, s'))

-- an action on the response
pub inside : {R S A : Type 0} → M R A → M (R × S) A
inside m (r, s) = let (a, r') = m r in (a, (r', s))

step_of : ℕ → ℕ
step_of zero = 1
step_of (suc n) = suc n

-- `content[i : i + size] for i in range(0, len(content), max(size, 1))`, with fuel
slices_from : ℕ → ℕ → Bytes → List Bytes
slices_from size zero content = []
slices_from size (suc fuel) content =
    let rest = slices_from size fuel (drop (step_of size) content) in
    if is_nil content then [] else take size content ∷ rest

size_or_all : Option ℕ → Bytes → ℕ
size_or_all none content = length content
size_or_all (some size) content = size

pub slices : Option ℕ → Bytes → List Bytes
slices chunk_size content = slices_from (size_or_all chunk_size content) (length content) content

module _ {D : Type 0} where
  pub update : (Response D → Response D) → M (Response D) (Unit {0})
  update f r = (ok tt, f r)

  begin : Response D → Response D
  begin r = record r {
    is_stream_consumed = true;
    num_bytes_downloaded = 0;
    stream = record r.stream { iterations = suc r.stream.iterations };
  }

  count : Bytes → Response D → Response D
  count part r = record r { num_bytes_downloaded = r.num_bytes_downloaded + length part }

  set_closed : Response D → Response D
  set_closed r = record r {
    is_closed = true;
    stream = record r.stream { closings = suc r.stream.closings };
  }

  pub close : M (Response D) (Unit {0})
  close r =
      if not r.stream.is_sync
      then (err runtime_error, r)
      else if r.is_closed
      then (ok tt, r)
      else (r.stream.closing, set_closed r)

  -- the loop of `iter_raw` over the stream
  pub raw_parts :
      {S : Type 0}
      → (Bytes → M S (Unit {0}))
      → List Bytes
      → ByteChunker
      → M (Response D × S) ByteChunker
  raw_parts body [] ch = pure ch
  raw_parts body (part ∷ parts) ch = do
    inside (update (count part))
    decoded ← lift (Chunker.decode ch part)
    outside (each body decoded.0)
    raw_parts body parts decoded.1

  -- `iter_raw` behind the tests
  pub pull : {S : Type 0} → Option ℕ → (Bytes → M S (Unit {0})) → M (Response D × S) (Unit {0})
  pull chunk_size body (r, s) =
      (do
        inside (update begin)
        ch ← raw_parts body r.stream.parts (Chunker.init chunk_size)
        lift r.stream.ending
        outside (each body (Chunker.flush ch).0)
        inside close)
        (r, s)

  pub iter_raw : {S : Type 0} → Option ℕ → (Bytes → M S (Unit {0})) → M (Response D × S) (Unit {0})
  iter_raw chunk_size body (r, s) =
      if r.is_stream_consumed
      then (err stream_consumed, (r, s))
      else if r.is_closed
      then (err stream_closed, (r, s))
      else if not r.stream.is_sync
      then (err runtime_error, (r, s))
      else pull chunk_size body (r, s)

-- `get_list("content-encoding", split_commas=True)`, each value stripped and in lower case
pub encodings_of : List Text → List Text
encodings_of values =
    map (λ value. lower (strip value)) (map strip (concat (map (split b',') values)))

module _ {D : Type 0} (codecs : Codecs D) where
  new_decoder : Response D → Result (List Text) × Headers → Result (ContentDecoder D) × Response D
  new_decoder r (err e, headers) = (err e, record r { headers = headers })
  new_decoder r (ok values, headers) =
      let d = decoder_for codecs (encodings_of values) in
      (ok d, record r { headers = headers; decoder = some d })

  -- `_get_content_decoder`
  pub get_content_decoder : M (Response D) (ContentDecoder D)
  get_content_decoder r = elim r.decoder [
    | some d ↦ (ok d, r)
    | none ↦ new_decoder r (Headers.get_list (codes "content-encoding") r.headers)
  ]

  -- the variables of `iter_bytes` and those of the loop over it
  pub record Decoding (S : Type 0) : Type 0 where
    pub content_decoder : ContentDecoder D
    pub chunker : ByteChunker
    pub outer : S

  module _ {S : Type 0} (body : Bytes → M S (Unit {0})) where
    -- a call of the decoder
    calls : (ContentDecoder D → Result Bytes × ContentDecoder D) → M (Decoding S) Bytes
    calls f v = let (r, d) = f v.content_decoder in (r, record v { content_decoder = d })

    set_chunker : ByteChunker → M (Decoding S) (Unit {0})
    set_chunker ch v = (ok tt, record v { chunker = ch })

    yields : List Bytes → M (Decoding S) (Unit {0})
    yields chunks v = let (r, s) = each body chunks v.outer in (r, record v { outer = s })

    -- `for chunk in chunker.decode(decoded): yield chunk`
    chunked : Bytes → M (Decoding S) (Unit {0})
    chunked decoded v =
        (do p ← lift (Chunker.decode v.chunker decoded); set_chunker p.1; yields p.0) v

    -- the body of the loop over `iter_raw`
    pub decode_part : Bytes → M (Decoding S) (Unit {0})
    decode_part raw_bytes = do
      decoded ← calls (λ d. Content.decode codecs d raw_bytes)
      chunked decoded

    -- what follows that loop
    pub decode_end : M (Decoding S) (Unit {0})
    decode_end = do
      decoded ← calls (Content.flush codecs)
      chunked decoded
      λ v. yields (Chunker.flush v.chunker).0 v

    -- the decoder is an object of the response
    rejoin : Result (Unit {0}) × (Response D × Decoding S) → Result (Unit {0}) × (Response D × S)
    rejoin (a, (r, v)) = (a, (record r { decoder = some v.content_decoder }, v.outer))

    pub unread :
        Option ℕ → Result (ContentDecoder D) × Response D → S → Result (Unit {0}) × (Response D × S)
    unread chunk_size (err e, r) s = (err e, (r, s))
    unread chunk_size (ok d, r) s = rejoin (
        (do iter_raw none decode_part; outside decode_end)
          (r, record { content_decoder = d; chunker = Chunker.init chunk_size; outer = s }))

    pub iter_bytes : Option ℕ → M (Response D × S) (Unit {0})
    iter_bytes chunk_size (r, s) = elim r.content [
      | some content ↦ outside (each body (slices chunk_size content)) (r, s)
      | none ↦ unread chunk_size (get_content_decoder r) s
    ]

  -- the body that collects what it is given
  pub collect : Bytes → M (List Bytes) (Unit {0})
  collect chunk chunks = (ok tt, chunks ++ chunk ∷ [])

  store : Result (Unit {0}) × (Response D × List Bytes) → Result Bytes × Response D
  store (err e, (r, chunks)) = (err e, r)
  store (ok _, (r, chunks)) = (ok (concat chunks), record r { content = some (concat chunks) })

  pub read : M (Response D) Bytes
  read r = elim r.content [
    | some content ↦ (ok content, r)
    | none ↦ store (iter_bytes collect none (r, []))
  ]

-- the property `content`
pub content_of : {D : Type 0} → Response D → Result Bytes
content_of r = elim r.content [ none ↦ err response_not_read | some content ↦ ok content ]
