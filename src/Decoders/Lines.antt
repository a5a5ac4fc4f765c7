-- ===== src/Decoders/Lines.antt =====
-- `LineDecoder` of httpxp/_decoders.py, and `str.splitlines` of Python, on which it stands.
mod Closed
mod Follows
mod Stream
mod Tests
use httpxp.Decoders.Chunker.{last_of, but_last}
use httpxp.Prelude.{
  Bool, List, Text, [], concat, false, if◌then◌else◌, is_nil, length, mem, not, true, ℕ, ◌&&◌, ◌++◌,
  ◌==◌, ◌∷◌, nat_eq,
}

-- `NEWLINE_CHARS`
pub newline_chars : Text
newline_chars = b'\n' ∷ b'\r' ∷ 0x0B ∷ 0x0C ∷ 0x1C ∷ 0x1D ∷ 0x1E ∷ 0x85 ∷ 0x2028 ∷ 0x2029 ∷ []

pub is_newline : ℕ → Bool
is_newline c = mem c newline_chars

-- the end of a text: a line that is not empty
pub last_line : Text → List Text
last_line line = if is_nil line then [] else line ∷ []

-- `splitlines` behind the start of a line; "\r\n" ends one line
pub lines_from : Text → Text → List Text
lines_from line [] = last_line line
lines_from line (c ∷ []) = if is_newline c then line ∷ [] else (line ++ c ∷ []) ∷ []
lines_from line (c ∷ d ∷ s) =
    let within = lines_from (line ++ c ∷ []) (d ∷ s) in
    let behind = lines_from [] (d ∷ s) in
    let behind_pair = lines_from [] s in
    if c == b'\r' && d == b'\n'
    then line ∷ behind_pair
    else if is_newline c
    then line ∷ behind
    else within

-- `text.splitlines()`
pub splitlines : Text → List Text
splitlines text = lines_from [] text

pub record LineDecoder : Type 0 where
  pub buffer : List Text
  pub trailing_cr : Bool

pub init : LineDecoder
init = record { buffer = []; trailing_cr = false }

-- `text[-1]` of a text that is not empty
pub last_is_newline : Text → Bool
last_is_newline [] = false
last_is_newline (c ∷ []) = is_newline c
last_is_newline (c ∷ d ∷ s) = last_is_newline (d ∷ s)

-- `text[:-1]`
pub but_last_char : Text → Text
but_last_char [] = []
but_last_char (c ∷ []) = []
but_last_char (c ∷ d ∷ s) = c ∷ but_last_char (d ∷ s)

-- `text.endswith(c)` for one character
pub ends_in : ℕ → Text → Bool
ends_in c [] = false
ends_in c (d ∷ []) = d == c
ends_in c (d ∷ a ∷ s) = ends_in c (a ∷ s)

-- a "\r" that the last part ended with stands before the text
pub prepended : Bool → Text → Text
prepended trailing_cr text = if trailing_cr then b'\r' ∷ text else text

-- `lines = ["".join(self.buffer) + lines[0]] + lines[1:]`
pub with_buffer : List Text → List Text → List Text
with_buffer buffer [] = []
with_buffer buffer (line ∷ lines) = (concat buffer ++ line) ∷ lines

pub joined : List Text → List Text → List Text
joined buffer lines = if is_nil buffer then lines else with_buffer buffer lines

-- once the text is split: what stands at its end goes back to the buffer, unless a newline ends it
pub decode_lines : List Text → List Text → Bool → Bool → List Text × LineDecoder
decode_lines buffer lines trailing_newline trailing_cr =
    if length lines == 1 && not trailing_newline
    then ([], record { buffer = buffer ++ lines; trailing_cr = trailing_cr })
    else if trailing_newline
    then (joined buffer lines, record { buffer = []; trailing_cr = trailing_cr })
    else (
      but_last (joined buffer lines),
      record { buffer = last_of (joined buffer lines) ∷ []; trailing_cr = trailing_cr },
    )

pub decode_text : List Text → Text → Bool → List Text × LineDecoder
decode_text buffer text trailing_cr =
    if is_nil text
    then ([], record { buffer = buffer; trailing_cr = trailing_cr })
    else decode_lines buffer (splitlines text) (last_is_newline text) trailing_cr

pub decode : LineDecoder → Text → List Text × LineDecoder
decode d text =
    let whole = prepended d.trailing_cr text in
    if ends_in b'\r' whole
    then decode_text d.buffer (but_last_char whole) true
    else decode_text d.buffer whole false

pub flush : LineDecoder → List Text × LineDecoder
flush d = if is_nil d.buffer && not d.trailing_cr then ([], d) else (concat d.buffer ∷ [], init)

-- A whole stream, as `Response.iter_lines` runs it.
pub run : LineDecoder → List Text → List Text
run d [] = (flush d).0
run d (part ∷ parts) = let p = decode d part in p.0 ++ run p.1 parts
