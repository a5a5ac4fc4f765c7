-- ===== src/Decoders/Lines/Closed.antt =====
-- The lines that a text ends, and what it leaves of the last one.
use httpxp.Prelude.{
  ==_iff, Bool, Bool-cases, List, Text, [], ap, append-nil, append_assoc, arith, false,
  if◌then◌else◌, inl, inr, is_nil, refl, sym, true, ℕ, ◌&&◌, ◌++◌, ◌==◌, ◌∙◌, ◌∷◌, ◌≡◌, nat_eq,
}
use httpxp.Decoders.Lines.{last_line, newline_chars, lines_from, is_newline, last_is_newline}

-- one line more in front
behind : Text → List Text × Text → List Text × Text
behind line (lines, rest) = (line ∷ lines, rest)

unfoldable pub closed : Text → Text → List Text × Text
unfolding behind
closed line [] = ([], line)
closed line (c ∷ []) = if is_newline c then (line ∷ [], []) else ([], line ++ c ∷ [])
closed line (c ∷ d ∷ s) =
    let within = closed (line ++ c ∷ []) (d ∷ s) in
    let next = closed [] (d ∷ s) in
    let next_pair = closed [] s in
    if c == b'\r' && d == b'\n'
    then behind line next_pair
    else if is_newline c
    then behind line next
    else within

-- a text that ends with "\r" before one that begins with "\n"
unfoldable pub splits_pair : Text → Text → Bool
splits_pair [] w = false
splits_pair (c ∷ []) [] = false
splits_pair (c ∷ []) (d ∷ w) = c == b'\r' && d == b'\n'
splits_pair (c ∷ d ∷ s) w = splits_pair (d ∷ s) w

splits_pair-tail : (d : ℕ) (s w : Text) → splits_pair (d ∷ s) w ≡ false → splits_pair s w ≡ false
unfolding splits_pair
splits_pair-tail d [] w h = refl
splits_pair-tail d (e ∷ s) w h = h

is_nil-append-one : (line : Text) (c : ℕ) → is_nil (line ++ c ∷ []) ≡ false
is_nil-append-one [] c = refl
is_nil-append-one (_ ∷ line) c = refl

pair-is_newline : (c d : ℕ) → (c == b'\r' && d == b'\n') ≡ true → is_newline d ≡ true
unfolding is_newline newline_chars
pair-is_newline c d h = ground (arith, ==_iff d b'\n')

pub lines_from-append :
    (line s w : Text)
    → splits_pair s w ≡ false
    → lines_from line (s ++ w) ≡ (closed line s).0 ++ lines_from (closed line s).1 w
unfolding lines_from closed splits_pair behind
lines_from-append line [] w h = refl
lines_from-append line (c ∷ []) [] h = elim (Bool-cases (is_newline c)) [
  | inl e ↦ rw e (unfold last_line in refl)
  | inr e ↦ rw e (unfold last_line in rw (is_nil-append-one line c) refl)
]
lines_from-append line (c ∷ []) (d ∷ w) h = elim (Bool-cases (is_newline c)) [
  | inl e ↦ rw (h, e) refl
  | inr e ↦ rw (h, e) refl
]
lines_from-append line (c ∷ d ∷ s) w h = elim (Bool-cases (c == b'\r' && d == b'\n')) [
  | inl e ↦ rw (e, lines_from-append [] s w (splits_pair-tail d s w h)) refl
  | inr n ↦ elim (Bool-cases (is_newline c)) [
    | inl e ↦ rw (n, e, lines_from-append [] (d ∷ s) w h) refl
    | inr e ↦ rw (n, e, lines_from-append (line ++ c ∷ []) (d ∷ s) w h) refl
  ]
]

pub is_nil-closed :
    (line : Text) (c : ℕ) (s : Text) → is_nil (closed line (c ∷ s)).1 ≡ last_is_newline (c ∷ s)
unfolding closed last_is_newline behind
is_nil-closed line c [] = elim (Bool-cases (is_newline c)) [
  | inl e ↦ rw e refl
  | inr e ↦ rw (e, is_nil-append-one line c) refl
]
is_nil-closed line c (d ∷ []) = elim (Bool-cases (c == b'\r' && d == b'\n')) [
  | inl e ↦ rw (e, pair-is_newline c d e) refl
  | inr n ↦ elim (Bool-cases (is_newline c)) [
    | inl e ↦ rw (n, e) (is_nil-closed [] d [])
    | inr e ↦ rw (n, e) (is_nil-closed (line ++ c ∷ []) d [])
  ]
]
is_nil-closed line c (d ∷ a ∷ s) = elim (Bool-cases (c == b'\r' && d == b'\n')) [
  | inl e ↦ rw e (is_nil-closed [] a s)
  | inr n ↦ elim (Bool-cases (is_newline c)) [
    | inl e ↦ rw (n, e) (is_nil-closed [] d (a ∷ s))
    | inr e ↦ rw (n, e) (is_nil-closed (line ++ c ∷ []) d (a ∷ s))
  ]
]

-- a text in front of the first line, or of what is left if there is no line
unfoldable pub fronted : Text → List Text × Text → List Text × Text
fronted b ([], rest) = ([], b ++ rest)
fronted b (line ∷ lines, rest) = ((b ++ line) ∷ lines, rest)

pub closed-append : (b line s : Text) → closed (b ++ line) s ≡ fronted b (closed line s)
unfolding closed fronted behind
closed-append b line [] = refl
closed-append b line (c ∷ []) = elim (Bool-cases (is_newline c)) [
  | inl e ↦ rw e refl
  | inr e ↦ rw e (ap (λ t. ([], t)) (append_assoc b line (c ∷ [])))
]
closed-append b line (c ∷ d ∷ s) = elim (Bool-cases (c == b'\r' && d == b'\n')) [
  | inl e ↦ rw e refl
  | inr n ↦ elim (Bool-cases (is_newline c)) [
    | inl e ↦ rw (n, e) refl
    | inr e ↦ rw (n, e, append_assoc b line (c ∷ [])) (closed-append b (line ++ c ∷ []) (d ∷ s))
  ]
]

splits_pair-nil : (s : Text) → splits_pair s [] ≡ false
unfolding splits_pair
splits_pair-nil [] = refl
splits_pair-nil (c ∷ []) = refl
splits_pair-nil (c ∷ d ∷ s) = splits_pair-nil (d ∷ s)

-- The lines of a text are those that it ends and, if it leaves one, the last.
pub lines_from-eq-closed :
    (line s : Text) → lines_from line s ≡ (closed line s).0 ++ last_line (closed line s).1
lines_from-eq-closed line s =
    ap (lines_from line) (sym (append-nil s))
    ∙ lines_from-append line s [] (splits_pair-nil s)
    ∙ (unfold lines_from in refl)

pub closed-some :
    (line : Text) (c : ℕ) (s : Text)
    → (is_nil (closed line (c ∷ s)).0 && is_nil (closed line (c ∷ s)).1) ≡ false
unfolding closed behind
closed-some line c [] = elim (Bool-cases (is_newline c)) [
  | inl e ↦ rw e refl
  | inr e ↦ rw (e, is_nil-append-one line c) refl
]
closed-some line c (d ∷ s) = elim (Bool-cases (c == b'\r' && d == b'\n')) [
  | inl e ↦ rw e refl
  | inr n ↦ elim (Bool-cases (is_newline c)) [
    | inl e ↦ rw (n, e) refl
    | inr e ↦ rw (n, e) (closed-some (line ++ c ∷ []) d s)
  ]
]
