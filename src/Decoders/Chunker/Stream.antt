-- ===== src/Decoders/Chunker/Stream.antt =====
-- A stream that is chunked part by part.
use httpxp.Prelude.{
  Bool-cases, List, Option, [], ap, append-nil, append_assoc, arith, concat, drop, false, inl, inr,
  leb, length, nat_beq, nat_beq_iff, none, refl, some, suc, sym, take, zero, ℕ, ◌++◌, ◌<◌, ◌∙◌, ◌∷◌,
  ◌≡◌, ◌≤◌,
}
use httpxp.Exceptions.Result.{ok}
use httpxp.Decoders.Chunker.{
  decode_at, decode, flush, Chunker, init, chunks, last_of, but_last, emit, decode_sized, unsized,
  run,
}
use httpxp.Decoders.Chunker.Chunks.{Sized, chunks-cons, chunks-nil}
use httpxp.Decoders.Chunker.Resume.{take-append, drop-append, take-all, chunks-Resumes}

drop-all : (n : ℕ) (v : List ℕ) → length v ≤ n → drop n v ≡ []
drop-all zero [] h = refl
drop-all zero (x ∷ v) h = absurd (omega arith)
drop-all (suc n) [] h = refl
drop-all (suc n) (x ∷ v) h = drop-all n v (omega arith)

-- a full chunk at the front is cut off
chunks-full :
    (m : ℕ) (c w : List ℕ) → length c ≡ suc m → chunks (suc m) (c ++ w) ≡ c ∷ chunks (suc m) w
chunks-full m [] w h = absurd (omega arith)
chunks-full m (x ∷ c) w h =
    let d : drop m c ≡ [] = drop-all m c (omega arith) in
    chunks-cons m x (c ++ w)
    ∙ ap (λ t. (x ∷ t) ∷ chunks (suc m) (drop m (c ++ w)))
        (take-append m c w (omega arith) ∙ take-all m c d)
    ∙ ap (λ t. (x ∷ c) ∷ chunks (suc m) t) (drop-append m c w (omega arith) ∙ ap (λ t. t ++ w) d)

-- what is less than a chunk is its own cutting
unsized-eq-chunks : (m : ℕ) (v : List ℕ) → length v < suc m → unsized v ≡ chunks (suc m) v
unfolding unsized
unsized-eq-chunks m [] h = sym (chunks-nil (suc m))
unsized-eq-chunks m (x ∷ v) h = sym (
    chunks-cons m x v
    ∙ ap (λ t. (x ∷ take m v) ∷ chunks (suc m) t) (drop-all m v (omega arith))
    ∙ ap (λ t. (x ∷ take m v) ∷ t) (chunks-nil (suc m))
    ∙ ap (λ t. (x ∷ t) ∷ []) (take-all m v (drop-all m v (omega arith))))

-- What a step keeps: what was returned and what will be cut of the rest is the cutting of all.
record Keeps (m : ℕ) (v : List ℕ) (p : List (List ℕ) × Chunker) (size : Option ℕ) : Type 0 where
  pub all_cut : (w : List ℕ) → p.0 ++ chunks (suc m) (p.1.buffer ++ w) ≡ chunks (suc m) (v ++ w)
  pub room : length p.1.buffer < suc m
  pub size_kept : p.1.chunk_size ≡ size

last-short : (k m : ℕ) → k ≤ suc m → nat_beq k (suc m) ≡ false → k < suc m
last-short k m h e = ground arith

not-full : (m k : ℕ) → leb (suc m) k ≡ false → k < suc m
not-full m k h = ground arith

emit-Keeps :
    (m x : ℕ) (v : List ℕ) (size : Option ℕ)
    → Keeps m (x ∷ v) (emit (suc m) (chunks (suc m) (x ∷ v)) size) size
unfolding emit
emit-Keeps m x v size =
    let cs = chunks (suc m) (x ∷ v) in
    elim (Bool-cases (nat_beq (length (last_of cs)) (suc m))) [
      | inl e ↦ rw e (record {
        all_cut = λ w.
            let r = chunks-Resumes m x v w in
            sym (
              r.resumed
              ∙ ap (λ t. but_last cs ++ t) (chunks-full m (last_of cs) w ((nat_beq_iff _ _).0 e))
              ∙ sym (append_assoc (but_last cs) (last_of cs ∷ []) (chunks (suc m) w))
              ∙ ap (λ t. t ++ chunks (suc m) w) r.whole);
        room = omega arith;
        size_kept = refl;
      })
      | inr e ↦ rw e (record {
        all_cut = λ w. sym (chunks-Resumes m x v w).resumed;
        room = last-short (length (last_of cs)) m (chunks-Resumes m x v []).short e;
        size_kept = refl;
      })
    ]

suc-leb_zero : (m : ℕ) → leb (suc m) 0 ≡ false
suc-leb_zero m = ground arith

decode_sized-Keeps :
    (m : ℕ) (v : List ℕ) (size : Option ℕ) → Keeps m v (decode_sized (suc m) v size) size
unfolding decode_sized
decode_sized-Keeps m [] size =
    rw (suc-leb_zero m) (record { all_cut = λ w. refl; room = omega arith; size_kept = refl })
decode_sized-Keeps m (x ∷ v) size = elim (Bool-cases (leb (suc m) (length (x ∷ v)))) [
  | inl h ↦ rw h (emit-Keeps m x v size)
  | inr h ↦
      rw h (record { all_cut = λ w. refl; room = not-full m (length (x ∷ v)) h; size_kept = refl })
]

run-chunks :
    (m : ℕ) (parts : List (List ℕ)) (ch : Chunker)
    → ch.chunk_size ≡ some (suc m)
    → length ch.buffer < suc m
    → run ch parts ≡ ok (chunks (suc m) (ch.buffer ++ concat parts))
unfolding run flush decode decode_at
run-chunks m [] ch s h =
    ap (λ t. ok t)
      (unsized-eq-chunks m ch.buffer h ∙ ap (chunks (suc m)) (sym (append-nil ch.buffer)))
run-chunks m (part ∷ parts) ch s h =
    let p = decode_sized (suc m) (ch.buffer ++ part) (some (suc m)) in
    let k = decode_sized-Keeps m (ch.buffer ++ part) (some (suc m)) in
    rw (s, run-chunks m parts p.1 k.size_kept k.room)
      (ap (λ t. ok t)
        (k.all_cut (concat parts)
          ∙ ap (chunks (suc m)) (append_assoc ch.buffer part (concat parts))))

-- For a positive size, whatever the parts that a stream comes in, the chunks that are returned for them, with what the
-- flush at the end returns, are the whole content cut into chunks of the size, and no part raises.
pub run-eq-chunks :
    (m : ℕ) (parts : List (List ℕ))
    → run (init (some (suc m))) parts ≡ ok (chunks (suc m) (concat parts))
unfolding init
run-eq-chunks m parts = run-chunks m parts _ refl (omega arith)

-- Cutting into chunks loses nothing: the chunks in order are the content, each but the last is of
-- the size, and the last is neither empty nor longer.
pub chunks_lem :
    (m : ℕ) (v : List ℕ) → (concat (chunks (suc m) v) ≡ v) × Sized (suc m) (chunks (suc m) v)
chunks_lem m [] = rw chunks-nil (refl, tt)
chunks_lem m (x ∷ v) = let r = chunks-Resumes m x v [] in (r.same, r.sized)

-- Without a size a part passes as it is, unless it is empty, and nothing is kept.
pub decode-init-none : (part : List ℕ) → decode (init none) part ≡ ok (unsized part, init none)
unfolding decode decode_at init
decode-init-none part = refl

pub flush-init-none : (flush (init none)).0 ≡ []
unfolding flush init unsized
flush-init-none = refl
