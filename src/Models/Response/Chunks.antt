-- ===== src/Models/Response/Chunks.antt =====
-- What the reading of a body gives, of a stream or of the content that is stored.
use httpxp.Prelude.{
  Bytes, List, [], ap, arith, concat, drop, length, none, refl, some, suc, sym, take, zero, ℕ, ◌++◌,
  ◌∙◌, ◌∷◌, ◌≡◌, ◌≤◌,
}
use httpxp.Exceptions.Result.{ok}
use httpxp.Decoders.Chunker
use httpxp.Decoders.Chunker.{chunks, run, unsized}
use httpxp.Decoders.Chunker.Chunks.{chunks-cons, chunks-nil}
use httpxp.Decoders.Chunker.Stream.{run-eq-chunks, decode-init-none, flush-init-none}
use httpxp.Decoders.Content.{ContentDecoder, Codecs}
use httpxp.Models.Response.Whole.{each-collect, Decodes}
use httpxp.Models.Response.Finished.{IsReadable, finished, iter_bytes-collect}
use httpxp.Models.Response.{
  get_content_decoder, each, slices, Headers, outside, Response, size_or_all, unread, collect,
  iter_bytes, read, slices_from, step_of, store,
}

concat-append-unsized :
    (part : Bytes) (rest : List Bytes) → concat (unsized part ++ rest) ≡ part ++ concat rest
unfolding unsized
concat-append-unsized [] rest = refl
concat-append-unsized (c ∷ part) rest = refl

-- Without a size the outputs pass as they are.
run-unsized :
    (outs : List Bytes)
    → (out : List Bytes) × (run (Chunker.init none) outs ≡ ok out) × (concat out ≡ concat outs)
unfolding run
run-unsized [] = ((Chunker.flush (Chunker.init none)).0, refl, ap concat flush-init-none)
run-unsized (part ∷ parts) =
    let (out, h, k) = run-unsized parts in
    (
      unsized part ++ out,
      simp (decode-init-none part, h) refl,
      concat-append-unsized part out ∙ ap (λ t. part ++ t) k,
    )

length-drop_le : (n : ℕ) (v : Bytes) → length (drop n v) ≤ length v
length-drop_le zero v = omega arith
length-drop_le (suc n) [] = omega arith
length-drop_le (suc n) (c ∷ v) = omega (arith, length-drop_le n v)

slices_from-eq :
    (m fuel : ℕ) (v : Bytes) → length v ≤ fuel → slices_from (suc m) fuel v ≡ chunks (suc m) v
unfolding slices_from step_of
slices_from-eq m zero [] h = sym (chunks-nil (suc m))
slices_from-eq m zero (c ∷ v) h = absurd (omega arith)
slices_from-eq m (suc fuel) [] h = sym (chunks-nil (suc m))
slices_from-eq m (suc fuel) (c ∷ v) h =
    ap (λ t. (c ∷ take m v) ∷ t)
      (slices_from-eq m fuel (drop m v) (omega (arith, length-drop_le m v)))
    ∙ sym (chunks-cons m c v)

module _ {D : Type 0} (codecs : Codecs D) where
  iter_bytes-content :
      (r : Response D) (content : Bytes) (m : ℕ)
      → r.content ≡ some content
      → iter_bytes codecs (collect codecs) (some (suc m)) (r, [])
        ≡ (ok tt, (r, chunks (suc m) content))
  unfolding iter_bytes outside slices size_or_all
  iter_bytes-content r content m h =
      ap
        (λ t. elim t [
          | some stored ↦ outside (each (collect codecs) (slices (some (suc m)) stored)) (r, [])
          | none ↦ unread codecs (collect codecs) (some (suc m)) (get_content_decoder codecs r) []
        ])
        h
      ∙ ap (λ q. (q.0, (r, q.1))) (each-collect codecs (slices (some (suc m)) content) [])
      ∙ ap (λ q. (ok tt, (r, q))) (slices_from-eq m (length content) content (omega arith))

  read-store :
      (r r' : Response D) (out : List Bytes)
      → r.content ≡ none
      → iter_bytes codecs (collect codecs) none (r, []) ≡ (ok tt, (r', out))
      → read codecs r ≡ (ok (concat out), record r' { content = some (concat out) })
  unfolding read store
  read-store r r' out h k =
      ap
        (λ t. elim t [
          | some stored ↦ (ok stored, r)
          | none ↦ store codecs (iter_bytes codecs (collect codecs) none (r, []))
        ])
        h
      ∙ ap (store codecs) k

  -- A response whose stream was not used before, and whose stream and decoder do not fail, is read into what
  -- the decoder makes of the parts and of its flush: the content is returned and stored, all bytes
  -- are counted, and the stream has been iterated and closed once more.
  pub read_lem :
      (r : Response D) (h : Headers) (d e : ContentDecoder D) (outs : List Bytes)
      → IsReadable codecs r
      → get_content_decoder codecs r ≡ (ok d, record r { headers = h; decoder = some d })
      → Decodes codecs d r.stream.parts outs e
      → read codecs r
        ≡ (ok (concat outs), record (finished codecs h e r) { content = some (concat outs) })
  read_lem r h d e outs k g f =
      let (out, o, c) = run-unsized outs in
      read-store r (finished codecs h e r) out k.unread_yet
        (iter_bytes-collect codecs r h d e outs out none k g f o)
      ∙ ap (λ t. (ok t, record (finished codecs h e r) { content = some t })) c

  -- Under the same conditions a loop with a positive size gives the same chunks whether the body was
  -- read before or comes from the stream: the decoded body cut into chunks of that size.
  pub iter_bytes-eq-chunks :
      (r : Response D) (h : Headers) (d e : ContentDecoder D) (outs : List Bytes) (m : ℕ)
      → IsReadable codecs r
      → get_content_decoder codecs r ≡ (ok d, record r { headers = h; decoder = some d })
      → Decodes codecs d r.stream.parts outs e
      → (iter_bytes codecs (collect codecs) (some (suc m)) (r, [])
          ≡ (ok tt, (finished codecs h e r, chunks (suc m) (concat outs))))
        × (iter_bytes codecs (collect codecs) (some (suc m)) ((read codecs r).1, [])
            ≡ (ok tt, ((read codecs r).1, chunks (suc m) (concat outs))))
  iter_bytes-eq-chunks r h d e outs m k g f = (
    iter_bytes-collect codecs r h d e outs _ (some (suc m)) k g f (run-eq-chunks m outs),
    iter_bytes-content (read codecs r).1 (concat outs) m
        (ap (λ q. q.1.content) (read_lem r h d e outs k g f)),
  )
