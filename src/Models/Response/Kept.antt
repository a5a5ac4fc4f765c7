-- ===== src/Models/Response/Kept.antt =====
-- What the parts of the methods of a response do to the marks on the use of its stream.
use httpxp.Prelude.{
  Bool, Bytes, List, Option, [], ap, false, if◌then◌else◌, none, not, refl, some, suc, true, ℕ, ◌∙◌,
  ◌∷◌, ◌≡◌,
}
use httpxp.Exceptions.Result.{Result, ok, err}
use httpxp.Client.Exec.{M, continue, lift, ◌>>=◌, ◌>>◌}
use httpxp.Decoders.Chunker
use httpxp.Decoders.Chunker.{ByteChunker}
use httpxp.Models.Response.{
  Response, begin, close, count, each, inside, iter_raw, outside, pull, raw_parts, set_closed,
  update,
}

-- how often the stream is used, for a flag
abbrev times : Bool → ℕ
times false = 0
times true = 1

-- The stream was iterated once if the response is marked as consumed, and not at all otherwise, and
-- closed once if it is marked as closed, and not at all otherwise.
pub record IsSingleUse {D : Type 0} (r : Response D) : Type 0 where
  pub iterated : r.stream.iterations ≡ times r.is_stream_consumed
  pub closed : r.stream.closings ≡ times r.is_closed

if-keeps :
    {W A : Type 0} (P : W → Type 0) (b : Bool) (x y : A × W)
    → (b ≡ true → P x.1)
    → (b ≡ false → P y.1)
    → P (if b then x else y).1
if-keeps P true x y h k = h refl
if-keeps P false x y h k = k refl

pub option-keeps :
    {A B : Type 0} (P : B → Type 0) (o : Option A) (b : B) (f : A → B)
    → P b
    → ((a : A) → P (f a))
    → P (elim o [ none ↦ b | some a ↦ f a ])
option-keeps P none b f h k = h
option-keeps P (some a) b f h k = k a

module _ {D : Type 0} where
  set_closed-IsSingleUse :
      (r : Response D) → r.is_closed ≡ false → IsSingleUse r → IsSingleUse (set_closed r)
  unfolding set_closed
  set_closed-IsSingleUse r c h = record {
    iterated = h.iterated;
    closed = ap suc (h.closed ∙ ap times c);
  }

  pub close-IsSingleUse : (r : Response D) → IsSingleUse r → IsSingleUse (close r).1
  unfolding close
  close-IsSingleUse r h =
      if-keeps IsSingleUse (not r.stream.is_sync) _ _ (λ _. h)
        λ _. if-keeps IsSingleUse r.is_closed _ _ (λ _. h) λ c. set_closed-IsSingleUse r c h

  begin-IsSingleUse :
      (r : Response D) → r.is_stream_consumed ≡ false → IsSingleUse r → IsSingleUse (begin r)
  unfolding begin
  begin-IsSingleUse r c h = record {
    iterated = ap suc (h.iterated ∙ ap times c);
    closed = h.closed;
  }

  count-IsSingleUse : (part : Bytes) (r : Response D) → IsSingleUse r → IsSingleUse (count part r)
  unfolding count
  count-IsSingleUse part r h = record { iterated = h.iterated; closed = h.closed }

  -- an action beside the variables of a loop keeps this
  abbrev Keeps : {S A : Type 0} → M (Response D × S) A → Type 0
  Keeps {S} m = (w : Response D × S) → IsSingleUse w.0 → IsSingleUse (m w).1.0

  continue-Keeps :
      {S A B : Type 0} (p : Result A × (Response D × S)) (k : A → M (Response D × S) B)
      → IsSingleUse p.1.0
      → ((a : A) → Keeps (k a))
      → IsSingleUse (continue p k).1.0
  continue-Keeps (ok a, w) k h f = f a w h
  continue-Keeps (err e, w) k h f = h

  bind-Keeps :
      {S A B : Type 0} (m : M (Response D × S) A) (k : A → M (Response D × S) B)
      → Keeps m
      → ((a : A) → Keeps (k a))
      → Keeps (m >>= k)
  bind-Keeps m k h f w i = continue-Keeps (m w) k (h w i) f

  pub seq-Keeps :
      {S A B : Type 0} (m : M (Response D × S) A) (k : M (Response D × S) B)
      → Keeps m
      → Keeps k
      → Keeps (m >> k)
  seq-Keeps m k h f w i = continue-Keeps (m w) (λ _. k) (h w i) (λ _. f)

  count-Keeps : {S : Type 0} (part : Bytes) → Keeps {S = S} (inside (update (count part)))
  unfolding inside update
  count-Keeps part w h = count-IsSingleUse part w.0 h

  close-Keeps : {S : Type 0} → Keeps {S = S} (inside close)
  unfolding inside
  close-Keeps w h = close-IsSingleUse w.0 h

  pub outside-Keeps : {S A : Type 0} (m : M S A) → Keeps (outside m)
  unfolding outside
  outside-Keeps m w h = h

  module _ {S : Type 0} (body : Bytes → M S (Unit {0})) where
    raw_parts-Keeps : (parts : List Bytes) (ch : ByteChunker) → Keeps (raw_parts body parts ch)
    unfolding raw_parts
    raw_parts-Keeps [] ch = λ w h. h
    raw_parts-Keeps (part ∷ parts) ch =
        let rest : List Bytes × ByteChunker → M (Response D × S) ByteChunker =
          λ decoded. outside (each body decoded.0) >> raw_parts body parts decoded.1 in
        seq-Keeps (inside (update (count part))) (lift (Chunker.decode ch part) >>= rest)
          (count-Keeps part)
          (bind-Keeps (lift (Chunker.decode ch part)) rest (λ w h. h)
            λ decoded.
              seq-Keeps (outside (each body decoded.0)) (raw_parts body parts decoded.1)
                (outside-Keeps (each body decoded.0)) (raw_parts-Keeps parts decoded.1))

    begin-then :
        {A : Type 0} (k : M (Response D × S) A) (r : Response D) (s : S)
        → r.is_stream_consumed ≡ false
        → IsSingleUse r
        → Keeps k
        → IsSingleUse ((inside (update begin) >> k) (r, s)).1.0
    unfolding inside update
    begin-then k r s c h f = f (begin r, s) (begin-IsSingleUse r c h)

    ending-Keeps :
        (ending : Result (Unit {0})) (ch : ByteChunker)
        → Keeps (lift ending >> (outside (each body (Chunker.flush ch).0) >> inside close))
    ending-Keeps ending ch =
        seq-Keeps (lift ending) (outside (each body (Chunker.flush ch).0) >> inside close)
          (λ w h. h)
          (seq-Keeps (outside (each body (Chunker.flush ch).0)) (inside close)
            (outside-Keeps (each body (Chunker.flush ch).0)) close-Keeps)

    pull-IsSingleUse :
        (chunk_size : Option ℕ) (r : Response D) (s : S)
        → r.is_stream_consumed ≡ false
        → IsSingleUse r
        → IsSingleUse (pull chunk_size body (r, s)).1.0
    unfolding pull
    pull-IsSingleUse chunk_size r s c h =
        let raw : M (Response D × S) ByteChunker =
          raw_parts body r.stream.parts (Chunker.init chunk_size) in
        let rest : ByteChunker → M (Response D × S) (Unit {0}) = λ ch.
          lift r.stream.ending >> (outside (each body (Chunker.flush ch).0) >> inside close) in
        begin-then (raw >>= rest) r s c h (
          bind-Keeps raw rest (raw_parts-Keeps r.stream.parts (Chunker.init chunk_size))
            (ending-Keeps r.stream.ending))

    pub iter_raw-IsSingleUse :
        (chunk_size : Option ℕ) (r : Response D) (s : S)
        → IsSingleUse r
        → IsSingleUse (iter_raw chunk_size body (r, s)).1.0
    unfolding iter_raw
    iter_raw-IsSingleUse chunk_size r s h =
        if-keeps {W = Response D × S} (λ q. IsSingleUse q.0) r.is_stream_consumed _ _ (λ _. h)
          λ c.
            if-keeps {W = Response D × S} (λ q. IsSingleUse q.0) r.is_closed _ _ (λ _. h)
              λ _.
                if-keeps {W = Response D × S} (λ q. IsSingleUse q.0) (not r.stream.is_sync) _ _
                  (λ _. h) λ _. pull-IsSingleUse chunk_size r s c h
