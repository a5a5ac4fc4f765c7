-- ===== src/Decoders/Chunker.antt =====
-- `ByteChunker` and `TextChunker` of httpxp/_decoders.py, which are the same code over bytes and
-- over text. The buffer stands with its content; a method returns it beside the result.
pub mod Chunks
mod Resume
pub mod Stream
mod Tests
use httpxp.Prelude.{
  List, Option, [], drop, if◌then◌else◌, is_nil, leb, length, none, some, suc, take, zero, ℕ, ◌++◌,
  ◌==◌, ◌∷◌, nat_eq,
}
use httpxp.Exceptions.{value_error}
use httpxp.Exceptions.Result.{Result, ok, err, ◌>>=◌}

pub record Chunker : Type 0 where
  pub buffer : List ℕ
  pub chunk_size : Option ℕ

abbrev pub ByteChunker : Type 0
ByteChunker = Chunker

abbrev pub TextChunker : Type 0
TextChunker = Chunker

pub init : Option ℕ → Chunker
init chunk_size = record { buffer = []; chunk_size = chunk_size }

-- `[value[i : i + n] for i in range(0, len(value), n)]`, with fuel
chunk_from : ℕ → ℕ → List ℕ → List (List ℕ)
chunk_from n zero value = []
chunk_from n (suc fuel) value =
    let rest = chunk_from n fuel (drop n value) in if is_nil value then [] else take n value ∷ rest

pub chunks : ℕ → List ℕ → List (List ℕ)
chunks n value = chunk_from n (length value) value

-- `chunks[-1]` and `chunks[:-1]` of a list that is not empty
unfoldable pub last_of : List (List ℕ) → List ℕ
last_of [] = []
last_of (c ∷ []) = c
last_of (c ∷ d ∷ cs) = last_of (d ∷ cs)

unfoldable pub but_last : List (List ℕ) → List (List ℕ)
but_last [] = []
but_last (c ∷ []) = []
but_last (c ∷ d ∷ cs) = c ∷ but_last (d ∷ cs)

-- the branches on the last chunk; `size` is the field that stays
emit : ℕ → List (List ℕ) → Option ℕ → List (List ℕ) × Chunker
emit n cs size =
    if length (last_of cs) == n
    then (cs, record { buffer = []; chunk_size = size })
    else (but_last cs, record { buffer = last_of cs; chunk_size = size })

-- the branches on the length of the buffer once the content is written to it
decode_sized : ℕ → List ℕ → Option ℕ → List (List ℕ) × Chunker
decode_sized n value size =
    if leb n (length value)
    then emit n (chunks n value) size
    else ([], record { buffer = value; chunk_size = size })

unfoldable pub unsized : List ℕ → List (List ℕ)
unsized value = if is_nil value then [] else value ∷ []

-- `range` raises on a step of zero.
decode_at : Option ℕ → List ℕ → Chunker → Result (List (List ℕ) × Chunker)
decode_at none content ch = ok (unsized content, ch)
decode_at (some zero) content ch = err value_error
decode_at (some (suc n)) content ch =
    ok (decode_sized (suc n) (ch.buffer ++ content) (some (suc n)))

pub decode : Chunker → List ℕ → Result (List (List ℕ) × Chunker)
decode ch content = decode_at ch.chunk_size content ch

unfoldable pub flush : Chunker → List (List ℕ) × Chunker
flush ch = (unsized ch.buffer, record ch { buffer = [] })

-- A whole stream, as `Response.iter_bytes` and `Response.iter_text` run it: each part is decoded,
-- and at the end the buffer is flushed.
unfoldable pub run : Chunker → List (List ℕ) → Result (List (List ℕ))
run ch [] = ok (flush ch).0
run ch (part ∷ parts) = do p ← decode ch part; later ← run p.1 parts; ok (p.0 ++ later)
