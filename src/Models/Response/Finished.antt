-- ===== src/Models/Response/Finished.antt =====
-- Reading a whole body: what the response is behind it.
use httpxp.Prelude.{
  Bytes, List, Option, [], ap, arith, concat, false, length, none, refl, some, suc, true, ℕ, ◌∙◌,
  ◌≡◌,
}
use httpxp.Exceptions.Result.{ok}
use httpxp.Decoders.Chunker
use httpxp.Decoders.Chunker.{run, Chunker}
use httpxp.Decoders.Chunker.Stream.{flush-init-none}
use httpxp.Decoders.Content.{Codecs, ContentDecoder}
use httpxp.Models.Response.{
  rejoin, get_content_decoder, unread, iter_bytes, M, begin, slices, iter_raw, pull, close,
  set_closed, pull, iter_raw, Headers, outside, inside, update, Response, Decoding, collect,
  decode_part, each,
}
use httpxp.Models.Response.Whole.{counted, Decodes, decode_end-ok, Looped, raw_parts-Looped}

module _ {D : Type 0} (codecs : Codecs D) where
  -- A body that has not been asked for, on a stream that gives its parts and closes without error.
  pub record IsReadable (r : Response D) : Type 0 where
    pub unread_yet : r.content ≡ none
    pub unconsumed : r.is_stream_consumed ≡ false
    pub unclosed : r.is_closed ≡ false
    pub sync : r.stream.is_sync ≡ true
    pub ends : r.stream.ending ≡ ok tt
    pub closes : r.stream.closing ≡ ok tt

  -- The response behind the loop.
  abbrev pub finished : Headers → ContentDecoder D → Response D → Response D
  finished h e r = record r {
    headers = h;
    decoder = some e;
    is_closed = true;
    is_stream_consumed = true;
    num_bytes_downloaded = length (concat r.stream.parts);
    stream = record r.stream {
      iterations = suc r.stream.iterations;
      closings = suc r.stream.closings;
    };
  }

  close-open :
      (r : Response D)
      → r.stream.is_sync ≡ true
      → r.is_closed ≡ false
      → close r ≡ (r.stream.closing, set_closed r)
  unfolding close
  close-open r h k = simp (h, k) refl

  iter_raw-pull :
      {S : Type 0} (chunk_size : Option ℕ) (body : Bytes → M S (Unit {0})) (r : Response D) (s : S)
      → r.is_stream_consumed ≡ false
      → r.is_closed ≡ false
      → r.stream.is_sync ≡ true
      → iter_raw chunk_size body (r, s) ≡ pull chunk_size body (r, s)
  unfolding iter_raw
  iter_raw-pull chunk_size body r s h k l = simp (h, k, l) refl

  -- The response behind `iter_raw`.
  abbrev pulled : Response D → Response D
  pulled r = set_closed (counted codecs (length (concat r.stream.parts)) (begin r))

  close-begun :
      (n : ℕ) (r : Response D)
      → r.is_closed ≡ false
      → r.stream.is_sync ≡ true
      → r.stream.closing ≡ ok tt
      → close (counted codecs n (begin r)) ≡ (ok tt, set_closed (counted codecs n (begin r)))
  unfolding begin
  close-begun n r h k c =
      close-open (counted codecs n (begin r)) k h
      ∙ ap (λ t. (t, set_closed (counted codecs n (begin r)))) c

  pull-Looped :
      (out : List Bytes) (e : ContentDecoder D) (r : Response D) (v : Decoding codecs (List Bytes))
      (l : Looped codecs r.stream.parts out e (begin r) v)
      → r.is_closed ≡ false
      → r.stream.is_sync ≡ true
      → r.stream.ending ≡ ok tt
      → r.stream.closing ≡ ok tt
      → pull none (decode_part codecs (collect codecs)) (r, v) ≡ (ok tt, (pulled r, l.after))
  unfolding pull inside outside update each
  pull-Looped out e r v l h k n c = simp (l.loops, n, flush-init-none, close-begun _ r h k c) refl

  unread-IsReadable :
      (r : Response D) (d e : ContentDecoder D) (outs out : List Bytes) (chunk_size : Option ℕ)
      → IsReadable r
      → r.decoder ≡ some d
      → Decodes codecs d r.stream.parts outs e
      → run (Chunker.init chunk_size) outs ≡ ok out
      → unread codecs (collect codecs) chunk_size (ok d, r) []
        ≡ (ok tt, (record (pulled r) { decoder = some e }, out))
  unfolding unread rejoin outside
  unread-IsReadable r d e outs out chunk_size k g f c =
      let v : Decoding codecs (List Bytes) = record {
        content_decoder = d;
        chunker = Chunker.init chunk_size;
        outer = [];
      } in
      let l : Looped codecs r.stream.parts out e (begin r) v =
        raw_parts-Looped codecs r.stream.parts outs out e (begin r) v f c in
      simp
        (
          iter_raw-pull none (decode_part codecs (collect codecs)) r v k.unconsumed k.unclosed
              k.sync,
          pull-Looped out e r v l k.unclosed k.sync k.ends k.closes,
          decode_end-ok codecs l.last e l.chunks l.after l.flushes l.cuts,
        )
        (ap (λ t. (ok tt, (record (pulled r) { decoder = some e }, t))) l.completes)

  iter_bytes-unread :
      {S : Type 0} (chunk_size : Option ℕ) (body : Bytes → M S (Unit {0})) (r : Response D) (s : S)
      → r.content ≡ none
      → iter_bytes codecs body chunk_size (r, s)
        ≡ unread codecs body chunk_size (get_content_decoder codecs r) s
  unfolding iter_bytes
  iter_bytes-unread chunk_size body r s h =
      ap
        (λ t. elim t [
          | some content ↦ outside (each body (slices chunk_size content)) (r, s)
          | none ↦ unread codecs body chunk_size (get_content_decoder codecs r) s
        ])
        h

  finished-eq :
      (h : Headers) (d e : ContentDecoder D) (r : Response D)
      → record (pulled (record r { headers = h; decoder = some d })) { decoder = some e }
        ≡ finished h e r
  unfolding begin set_closed
  finished-eq h d e r = ap (λ n. record (finished h e r) { num_bytes_downloaded = n }) (omega arith)

  pub iter_bytes-collect :
      (r : Response D) (h : Headers) (d e : ContentDecoder D) (outs out : List Bytes)
      (chunk_size : Option ℕ)
      → IsReadable r
      → get_content_decoder codecs r ≡ (ok d, record r { headers = h; decoder = some d })
      → Decodes codecs d r.stream.parts outs e
      → run (Chunker.init chunk_size) outs ≡ ok out
      → iter_bytes codecs (collect codecs) chunk_size (r, []) ≡ (ok tt, (finished h e r, out))
  iter_bytes-collect r h d e outs out chunk_size k g f c =
      let r' : Response D = record r { headers = h; decoder = some d } in
      iter_bytes-unread chunk_size (collect codecs) r [] k.unread_yet
      ∙ ap (λ q. unread codecs (collect codecs) chunk_size q []) g
      ∙ unread-IsReadable r' d e outs out chunk_size
          (record {
            unread_yet = k.unread_yet;
            unconsumed = k.unconsumed;
            unclosed = k.unclosed;
            sync = k.sync;
            ends = k.ends;
            closes = k.closes;
          })
          refl f c
      ∙ ap (λ q. (ok tt, (q, out))) (finished-eq h d e r)
