-- ===== src/Decoders/Lines/Follows.antt =====
-- What decoding a part of a text leaves in the decoder.
use httpxp.Prelude.{
  Bool, Bool-cases, List, Text, [], ap, append-nil, append_assoc, arith, concat, false, inl, inr,
  is_nil, length, nat_beq_iff, refl, sym, true, ℕ, ◌&&◌, ◌++◌, ◌==◌, ◌∙◌, ◌∷◌, ◌≡◌, nat_eq,
}
use httpxp.Decoders.Lines.{
  newline_chars, is_newline, ends_in, LineDecoder, flush, prepended, but_last_char, lines_from,
  splitlines, decode_text, last_line, decode_lines, joined, with_buffer,
}
use httpxp.Decoders.Chunker.{last_of, but_last}
use httpxp.Decoders.Lines.Closed.{
  splits_pair, closed-some, closed-append, is_nil-closed, lines_from-eq-closed, closed, fronted,
}

last_of-append-one : (ls : List Text) (x : Text) → last_of (ls ++ x ∷ []) ≡ x
unfolding last_of
last_of-append-one [] x = refl
last_of-append-one (l ∷ []) x = refl
last_of-append-one (l ∷ m ∷ ls) x = last_of-append-one (m ∷ ls) x

but_last-append-one : (ls : List Text) (x : Text) → but_last (ls ++ x ∷ []) ≡ ls
unfolding but_last
but_last-append-one [] x = refl
but_last-append-one (l ∷ []) x = refl
but_last-append-one (l ∷ m ∷ ls) x = ap (λ t. l ∷ t) (but_last-append-one (m ∷ ls) x)

concat-append-one : (ls : List Text) (x : Text) → concat (ls ++ x ∷ []) ≡ concat ls ++ x
concat-append-one [] x = append-nil x
concat-append-one (l ∷ ls) x =
    ap (λ t. l ++ t) (concat-append-one ls x) ∙ sym (append_assoc l (concat ls) x)

-- The buffer is empty only if it holds no text.
abbrev pub IsFilled : List Text → Type 0
IsFilled buffer = is_nil buffer ≡ is_nil (concat buffer)

joined-cons :
    (buffer : List Text) (y : Text) (ls : List Text)
    → joined buffer (y ∷ ls) ≡ (concat buffer ++ y) ∷ ls
unfolding joined with_buffer
joined-cons [] y ls = refl
joined-cons (b ∷ buffer) y ls = refl

-- What is returned are the lines that end; the buffer holds what is left.
pub record Follows (p : List Text × Text) (cr : Bool) (q : List Text × LineDecoder) : Type 0 where
  pub lines : q.0 ≡ p.0
  pub rest : concat q.1.buffer ≡ p.1
  pub cr_kept : q.1.trailing_cr ≡ cr
  pub filled : IsFilled q.1.buffer

is_nil-append-cons : (s : Text) (x : ℕ) (t : Text) → is_nil (s ++ x ∷ t) ≡ false
is_nil-append-cons [] x t = refl
is_nil-append-cons (_ ∷ s) x t = refl

is_nil-append-last : (ls : List Text) (x : Text) → is_nil (ls ++ x ∷ []) ≡ false
is_nil-append-last [] x = refl
is_nil-append-last (_ ∷ ls) x = refl

decode_lines-ended :
    (buffer ls : List Text) (cr : Bool)
    → decode_lines buffer ls true cr ≡ (joined buffer ls, record { buffer = []; trailing_cr = cr })
unfolding decode_lines
decode_lines-ended buffer ls cr = elim (Bool-cases (length ls == 1)) [
  | inl e ↦ rw e refl
  | inr e ↦ rw e refl
]

two-lines : (ls : List Text) (y l : Text) → (length (y ∷ (ls ++ l ∷ [])) == 1) ≡ false
two-lines [] y l = ground arith
two-lines (_ ∷ ls) y l = ground arith

decode_lines-open :
    (buffer ls : List Text) (y l : Text) (cr : Bool)
    → decode_lines buffer (y ∷ (ls ++ l ∷ [])) false cr
      ≡ ((concat buffer ++ y) ∷ ls, record { buffer = l ∷ []; trailing_cr = cr })
unfolding decode_lines
decode_lines-open buffer ls y l cr =
    rw
      (
        two-lines ls y l,
        joined-cons buffer y (ls ++ l ∷ []),
        but_last-append-one ((concat buffer ++ y) ∷ ls) l,
        last_of-append-one ((concat buffer ++ y) ∷ ls) l,
      )
      refl

decode_lines-Follows :
    (buffer ls : List Text) (l : Text) (cr : Bool)
    → (is_nil ls && is_nil l) ≡ false
    → Follows
        (fronted (concat buffer) (ls, l))
        cr
        (decode_lines buffer (ls ++ last_line l) (is_nil l) cr)
unfolding fronted last_line
decode_lines-Follows buffer [] [] cr n = cc
decode_lines-Follows buffer [] (x ∷ l) cr n =
    unfold decode_lines in
    record {
      lines = refl;
      rest = concat-append-one buffer (x ∷ l);
      cr_kept = refl;
      filled =
          is_nil-append-last buffer (x ∷ l)
          ∙ sym (
              ap (is_nil {A = ℕ}) (concat-append-one buffer (x ∷ l))
              ∙ is_nil-append-cons (concat buffer) x l);
    }
decode_lines-Follows buffer (y ∷ ls) [] cr n =
    rw (append-nil, decode_lines-ended buffer (y ∷ ls) cr, joined-cons buffer y ls)
      (record { lines = refl; rest = refl; cr_kept = refl; filled = refl })
decode_lines-Follows buffer (y ∷ ls) (x ∷ l) cr n =
    rw (decode_lines-open buffer ls y (x ∷ l) cr)
      (record { lines = refl; rest = append-nil (x ∷ l); cr_kept = refl; filled = refl })

decode_text-eq :
    (buffer : List Text) (c : ℕ) (s : Text) (cr : Bool)
    → decode_text buffer (c ∷ s) cr
      ≡ decode_lines buffer
          ((closed [] (c ∷ s)).0 ++ last_line (closed [] (c ∷ s)).1)
          (is_nil (closed [] (c ∷ s)).1)
          cr
unfolding decode_text splitlines
decode_text-eq buffer c s cr = rw (lines_from-eq-closed [] (c ∷ s), is_nil-closed [] c s) refl

closed-fronted : (b s : Text) → closed b s ≡ fronted b (closed [] s)
closed-fronted b s = ap (λ t. closed t s) (sym (append-nil b)) ∙ closed-append b [] s

pub decode_text-Follows :
    (buffer : List Text) (t : Text) (cr : Bool)
    → IsFilled buffer
    → Follows (closed (concat buffer) t) cr (decode_text buffer t cr)
decode_text-Follows buffer [] cr f =
    unfold decode_text closed in record { lines = refl; rest = refl; cr_kept = refl; filled = f }
decode_text-Follows buffer (c ∷ s) cr f =
    rw (decode_text-eq buffer c s cr, closed-fronted (concat buffer) (c ∷ s))
      (decode_lines-Follows buffer (closed [] (c ∷ s)).0 (closed [] (c ∷ s)).1 cr
        (closed-some [] c s))

-- the lines of what the decoder holds and what follows it
unfoldable pub lines_of : List Text → Bool → Text → List Text
lines_of buffer cr w = lines_from (concat buffer) (prepended cr w)

pub flush_lem :
    (d : LineDecoder) → IsFilled d.buffer → (flush d).0 ≡ lines_of d.buffer d.trailing_cr []
unfolding flush lines_of prepended lines_from last_line is_newline newline_chars
flush_lem d f = elim (Bool-cases d.trailing_cr) [
  | inl e ↦ rw e (elim (Bool-cases (is_nil d.buffer)) [ inl k ↦ rw k refl | inr k ↦ rw k refl ])
  | inr e ↦
      rw e (elim (Bool-cases (is_nil d.buffer)) [
        | inl k ↦ rw (← f, k) refl
        | inr k ↦ rw (← f, k) refl
      ])
]

pub split_cr : (t : Text) → ends_in b'\r' t ≡ true → t ≡ but_last_char t ++ b'\r' ∷ []
unfolding but_last_char ends_in
split_cr [] h = cc
split_cr (c ∷ []) h = ap (λ (x : ℕ). x ∷ []) ((nat_beq_iff c b'\r').0 h)
split_cr (c ∷ d ∷ s) h = ap (λ t. c ∷ t) (split_cr (d ∷ s) h)

pub splits_pair-of_no_cr : (t w : Text) → ends_in b'\r' t ≡ false → splits_pair t w ≡ false
unfolding splits_pair ends_in
splits_pair-of_no_cr [] w h = refl
splits_pair-of_no_cr (c ∷ []) [] h = refl
splits_pair-of_no_cr (c ∷ []) (d ∷ w) h = rw h refl
splits_pair-of_no_cr (c ∷ d ∷ s) w h = splits_pair-of_no_cr (d ∷ s) w h

pub splits_pair-of_cr : (t w : Text) → splits_pair t (b'\r' ∷ w) ≡ false
unfolding splits_pair
splits_pair-of_cr [] w = refl
splits_pair-of_cr (c ∷ []) w = ground arith
splits_pair-of_cr (c ∷ d ∷ s) w = splits_pair-of_cr (d ∷ s) w

pub prepended-append :
    (cr : Bool) (part w : Text) → prepended cr (part ++ w) ≡ prepended cr part ++ w
unfolding prepended
prepended-append true part w = refl
prepended-append false part w = refl

-- one part
