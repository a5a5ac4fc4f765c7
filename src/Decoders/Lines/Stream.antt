-- ===== src/Decoders/Lines/Stream.antt =====
-- Decoding a stream of parts gives the lines of the whole text.
use httpxp.Prelude.{
  Bool, Bool-cases, List, Text, [], ap, append_assoc, concat, false, inl, inr, refl, sym, true,
  ◌++◌, ◌∙◌, ◌∷◌, ◌≡◌,
}
use httpxp.Decoders.Lines.{
  ends_in, LineDecoder, init, decode, run, prepended, but_last_char, lines_from, splitlines,
  decode_text,
}
use httpxp.Decoders.Lines.Closed.{lines_from-append, splits_pair}
use httpxp.Decoders.Lines.Follows.{
  IsFilled, decode_text-Follows, lines_of, flush_lem, split_cr, splits_pair-of_no_cr,
  splits_pair-of_cr, prepended-append,
}

record Resumes (d : LineDecoder) (part : Text) : Type 0 where
  pub filled : IsFilled (decode d part).1.buffer
  pub resumed :
      (w : Text)
      → lines_of d.buffer d.trailing_cr (part ++ w)
        ≡ (decode d part).0 ++ lines_of (decode d part).1.buffer (decode d part).1.trailing_cr w

follow-eq :
    (buffer : List Text) (t w : Text) (cr : Bool)
    → IsFilled buffer
    → splits_pair t (prepended cr w) ≡ false
    → lines_from (concat buffer) (t ++ prepended cr w)
      ≡ (decode_text buffer t cr).0
        ++ lines_of (decode_text buffer t cr).1.buffer (decode_text buffer t cr).1.trailing_cr w
unfolding lines_of
follow-eq buffer t w cr f h =
    let k = decode_text-Follows buffer t cr f in
    rw (k.lines, k.rest, k.cr_kept) (lines_from-append (concat buffer) t (prepended cr w) h)

prepended-true : (w : Text) → prepended true w ≡ b'\r' ∷ w
unfolding prepended
prepended-true w = refl

prepended-false : (w : Text) → prepended false w ≡ w
unfolding prepended
prepended-false w = refl

-- a part that ends with "\r", which waits for the next part
held :
    (whole w : Text)
    → ends_in b'\r' whole ≡ true
    → whole ++ w ≡ but_last_char whole ++ prepended true w
held whole w e =
    ap (λ v. v ++ w) (split_cr whole e)
    ∙ append_assoc (but_last_char whole) (b'\r' ∷ []) w
    ∙ sym (ap (λ v. but_last_char whole ++ v) (prepended-true w))

decode-Resumes : (d : LineDecoder) (part : Text) → IsFilled d.buffer → Resumes d part
unfolding decode lines_of
decode-Resumes d part f = elim (Bool-cases (ends_in b'\r' (prepended d.trailing_cr part))) [
  | inl e ↦ record {
    filled = rw e ((decode_text-Follows d.buffer _ true f).filled);
    resumed = λ w. rw e (
        ap (lines_from (concat d.buffer))
          (prepended-append d.trailing_cr part w ∙ held (prepended d.trailing_cr part) w e)
        ∙ follow-eq d.buffer (but_last_char (prepended d.trailing_cr part)) w true f
            (ap (splits_pair _) (prepended-true w) ∙ splits_pair-of_cr _ w));
  }
  | inr e ↦ record {
    filled = rw e ((decode_text-Follows d.buffer _ false f).filled);
    resumed = λ w. rw e (
        ap (lines_from (concat d.buffer)) (
          prepended-append d.trailing_cr part w
          ∙ sym (ap (λ v. prepended d.trailing_cr part ++ v) (prepended-false w)))
        ∙ follow-eq d.buffer (prepended d.trailing_cr part) w false f (splits_pair-of_no_cr _ _ e));
  }
]

run-lines_of :
    (d : LineDecoder) (parts : List Text)
    → IsFilled d.buffer
    → run d parts ≡ lines_of d.buffer d.trailing_cr (concat parts)
unfolding run
run-lines_of d [] f = flush_lem d f
run-lines_of d (part ∷ parts) f =
    let k = decode-Resumes d part f in
    rw (run-lines_of (decode d part).1 parts k.filled) (sym (k.resumed (concat parts)))

-- Whatever the parts that a text comes in, the lines that are returned for them, with what the
-- flush at the end returns, are the lines of the whole text.
pub run-splitlines : (parts : List Text) → run init parts ≡ splitlines (concat parts)
unfolding init splitlines
run-splitlines parts = run-lines_of init parts refl ∙ (unfold lines_of prepended in refl)
