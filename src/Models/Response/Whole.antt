-- ===== src/Models/Response/Whole.antt =====
-- Reading a whole body: the parts of the stream pass the decoder and the chunker.
use httpxp.Prelude.{
  Bytes, List, [], ap, append-nil, append_assoc, arith, concat, length, length-append, none, refl,
  sym, ℕ, ◌++◌, ◌+◌, ◌∙◌, ◌∷◌, ◌≡◌,
}
use httpxp.Exceptions.Result.{ok-of_bind, ok-inj, ok}
use httpxp.Decoders.Chunker
use httpxp.Decoders.Chunker.{unsized, run, ByteChunker, Chunker}
use httpxp.Decoders.Chunker.Stream.{decode-init-none}
use httpxp.Decoders.Content
use httpxp.Decoders.Content.{Codecs, ContentDecoder}
use httpxp.Models.Response.{
  outside, inside, update, raw_parts, count, Response, Decoding, calls, chunked, collect,
  decode_end, decode_part, each, set_chunker, yields,
}

pub each-collect :
    {D : Type 0} (codecs : Codecs D) (chunks acc : List Bytes)
    → each (collect codecs) chunks acc ≡ (ok tt, acc ++ chunks)
unfolding each collect
each-collect codecs [] acc = ap (λ t. (ok tt, t)) (sym (append-nil acc))
each-collect codecs (chunk ∷ chunks) acc =
    each-collect codecs chunks (acc ++ chunk ∷ [])
    ∙ ap (λ t. (ok tt, t)) (append_assoc acc (chunk ∷ []) chunks)

module _ {D : Type 0} (codecs : Codecs D) where
  -- The decoder turns the parts, of which the empty ones are left out, into the given outputs and
  -- ends as given; the last output is that of its flush.
  abbrev pub Decodes : ContentDecoder D → List Bytes → List Bytes → ContentDecoder D → Type 0
  Decodes d [] outs e = (out : Bytes) × (Content.flush codecs d ≡ (ok out, e)) × (outs ≡ out ∷ [])
  Decodes d ([] ∷ parts) outs e = Decodes d parts outs e
  Decodes d ((c ∷ part) ∷ parts) outs e =
      (out : Bytes) × (d' : ContentDecoder D) × (rest : List Bytes) × (Content.decode codecs d
          (c ∷ part)
        ≡ (ok out, d'))
      × (outs ≡ out ∷ rest)
      × Decodes d' parts rest e

  chunked-ok :
      (decoded : Bytes) (p : List Bytes × ByteChunker) (v : Decoding codecs (List Bytes))
      → Chunker.decode v.chunker decoded ≡ ok p
      → chunked codecs (collect codecs) decoded v
        ≡ (ok tt, record v { chunker = p.1; outer = v.outer ++ p.0 })
  unfolding chunked set_chunker yields
  chunked-ok decoded p v h = rw (h, each-collect codecs p.0 v.outer) refl

  decode_part-ok :
      (part out : Bytes) (d' : ContentDecoder D) (p : List Bytes × ByteChunker)
      (v : Decoding codecs (List Bytes))
      → Content.decode codecs v.content_decoder part ≡ (ok out, d')
      → Chunker.decode v.chunker out ≡ ok p
      → decode_part codecs (collect codecs) part v
        ≡ (ok tt, record { content_decoder = d'; chunker = p.1; outer = v.outer ++ p.0 })
  unfolding decode_part calls
  decode_part-ok part out d' p v h k =
      rw (h, chunked-ok out p (record v { content_decoder = d' }) k) refl

  pub decode_end-ok :
      (out : Bytes) (d' : ContentDecoder D) (p : List Bytes × ByteChunker)
      (v : Decoding codecs (List Bytes))
      → Content.flush codecs v.content_decoder ≡ (ok out, d')
      → Chunker.decode v.chunker out ≡ ok p
      → decode_end codecs (collect codecs) v ≡ (
        ok tt,
        record {
          content_decoder = d';
          chunker = p.1;
          outer = (v.outer ++ p.0) ++ (Chunker.flush p.1).0;
        },
      )
  unfolding decode_end calls yields
  decode_end-ok out d' p v h k =
      rw
        (
          h,
          chunked-ok out p (record v { content_decoder = d' }) k,
          each-collect codecs (Chunker.flush p.1).0 (v.outer ++ p.0),
        )
        refl

  abbrev pub counted : ℕ → Response D → Response D
  counted n r = record r { num_bytes_downloaded = r.num_bytes_downloaded + n }

  counted-count :
      (n : ℕ) (part : Bytes) (r : Response D)
      → counted n (count part r) ≡ counted (length part + n) r
  unfolding count
  counted-count n part r = ap (λ m. record r { num_bytes_downloaded = m }) (omega arith)

  counted-zero : (r : Response D) → counted 0 r ≡ r
  counted-zero r = ap (λ m. record r { num_bytes_downloaded = m }) (omega arith)

  -- What the loop over the parts has done: the flush of the decoder and that of the chunker, which
  -- are to follow, complete the output.
  pub record Looped (parts out : List Bytes) (e : ContentDecoder D) (r : Response D)
      (v : Decoding codecs (List Bytes)) : Type 0 where
    pub after : Decoding codecs (List Bytes)
    pub last : Bytes
    pub chunks : List Bytes × ByteChunker
    pub loops :
        raw_parts (decode_part codecs (collect codecs)) parts (Chunker.init none) (r, v)
        ≡ (ok (Chunker.init none), (counted (length (concat parts)) r, after))
    pub flushes : Content.flush codecs after.content_decoder ≡ (ok last, e)
    pub cuts : Chunker.decode after.chunker last ≡ ok chunks
    pub completes : (after.outer ++ chunks.0) ++ (Chunker.flush chunks.1).0 ≡ v.outer ++ out

  Looped-nil :
      (out : List Bytes) (e : ContentDecoder D) (last : Bytes) (r : Response D)
      (v : Decoding codecs (List Bytes))
      → Content.flush codecs v.content_decoder ≡ (ok last, e)
      → run v.chunker (last ∷ []) ≡ ok out
      → Looped [] out e r v
  unfolding raw_parts run
  Looped-nil out e last r v f h =
      let (p, d, k) = ok-of_bind (Chunker.decode v.chunker last) _ out h in
      record {
        after = v;
        last = last;
        chunks = p;
        loops = rw (counted-zero r) refl;
        flushes = f;
        cuts = d;
        completes = append_assoc v.outer p.0 _ ∙ ap (λ t. v.outer ++ t) (ok-inj k);
      }

  Looped-skip :
      (parts out : List Bytes) (e : ContentDecoder D) (r : Response D)
      (v : Decoding codecs (List Bytes))
      → Looped parts out e (count [] r) v
      → Looped ([] ∷ parts) out e r v
  unfolding raw_parts update inside outside each unsized
  Looped-skip parts out e r v l = record {
    after = l.after;
    last = l.last;
    chunks = l.chunks;
    loops = rw (decode-init-none []) (
        l.loops
        ∙ ap (λ q. (ok (Chunker.init none), (q, l.after)))
            (counted-count _ [] r ∙ ap (λ n. counted n r) (sym (length-append [] (concat parts)))));
    flushes = l.flushes;
    cuts = l.cuts;
    completes = l.completes;
  }

  Looped-part :
      (c : ℕ) (part : Bytes) (parts out later : List Bytes) (e d : ContentDecoder D)
      (r : Response D) (v : Decoding codecs (List Bytes)) (decoded : Bytes)
      (p : List Bytes × ByteChunker)
      → Content.decode codecs v.content_decoder (c ∷ part) ≡ (ok decoded, d)
      → Chunker.decode v.chunker decoded ≡ ok p
      → p.0 ++ later ≡ out
      → Looped parts later e
          (count (c ∷ part) r)
          (record { content_decoder = d; chunker = p.1; outer = v.outer ++ p.0 })
      → Looped ((c ∷ part) ∷ parts) out e r v
  unfolding raw_parts update inside outside each unsized
  Looped-part c part parts out later e d r v decoded p f h o l = record {
    after = l.after;
    last = l.last;
    chunks = l.chunks;
    loops =
        rw (decode-init-none (c ∷ part), decode_part-ok (c ∷ part) decoded d p v f h)
          (l.loops
            ∙ ap (λ q. (ok (Chunker.init none), (q, l.after)))
                (counted-count _ (c ∷ part) r
                  ∙ ap (λ n. counted n r) (sym (length-append (c ∷ part) (concat parts)))));
    flushes = l.flushes;
    cuts = l.cuts;
    completes = l.completes ∙ append_assoc v.outer p.0 later ∙ ap (λ t. v.outer ++ t) o;
  }

  pub raw_parts-Looped :
      (parts outs out : List Bytes) (e : ContentDecoder D) (r : Response D)
      (v : Decoding codecs (List Bytes))
      → Decodes v.content_decoder parts outs e
      → run v.chunker outs ≡ ok out
      → Looped parts out e r v
  unfolding run
  raw_parts-Looped [] outs out e r v (last, f, o) h =
      Looped-nil out e last r v f (ap (run v.chunker) (sym o) ∙ h)
  raw_parts-Looped ([] ∷ parts) outs out e r v f h =
      Looped-skip parts out e r v (raw_parts-Looped parts outs out e (count [] r) v f h)
  raw_parts-Looped ((c ∷ part) ∷ parts) outs out e r v (decoded, d, rest, f, o, fs) h =
      let (p, k, h') =
        ok-of_bind (Chunker.decode v.chunker decoded) _ out (ap (run v.chunker) (sym o) ∙ h) in
      let (later, ks, h'') = ok-of_bind (run p.1 rest) _ out h' in
      Looped-part c part parts out later e d r v decoded p f k (ok-inj h'') (
        raw_parts-Looped parts rest later e (count (c ∷ part) r)
          (record { content_decoder = d; chunker = p.1; outer = v.outer ++ p.0 }) fs ks)
