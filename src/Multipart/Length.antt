-- ===== src/Multipart/Length.antt =====
-- The announced length is the number of bytes that are sent.
use httpxp.Codec.{ascii, decode, encode_utf8}
use httpxp.Dict.{Dict}
use httpxp.Exceptions.Result.{ok, ok-inj, ok-of_bind}
use httpxp.Prelude.{
  All, All-append, Bytes, List, Option, Text, [], ap, arith, codes, concat, drop, inl, inr, length,
  length-append, map, none, refl, some, subst, sym, true, ℕ, ◌++◌, ◌+◌, ◌∙◌, ◌∷◌, ◌≡◌, ◌⊎◌,
}
use httpxp.Multipart.{
  FieldValue, FileTypes, FormValue, Platform, data_fields, file_fields, given_boundary, init, many,
  one, if_known, in_text, in_bytes, open_file, text_stream, render_file_headers, data_bytes,
  render_data_headers, OpenFile, FileContent, open_file, Field, data_field, file_field,
  MultipartStream, iter_chunks, length_from, get_length, get_content_length, render, file_length,
  file_bytes,
}

abbrev pub IsLength : Option ℕ → Bytes → Type 0
IsLength none content = Unit
IsLength (some n) content = n ≡ length content

-- The length that a file tells is that of its content, and it can seek or stands at its start.
abbrev pub IsMeasured : OpenFile → Type 0
IsMeasured f = IsLength f.known_length f.content × ((f.seekable ≡ true) ⊎ (f.position ≡ 0))

abbrev pub IsMeasuredContent : FileContent → Type 0
IsMeasuredContent (open_file f) = IsMeasured f
IsMeasuredContent _ = Unit

abbrev pub IsMeasuredField : Field → Type 0
IsMeasuredField (data_field f) = Unit
IsMeasuredField (file_field f) = IsMeasuredContent f.file

file_bytes-open : (f : OpenFile) → IsMeasured f → file_bytes (open_file f) ≡ f.content
unfolding file_bytes
file_bytes-open f (h, inl e) = rw e
file_bytes-open f (h, inr e) = ground (arith, ap (λ (n : ℕ). drop n f.content) e)

open_length-eq :
    (headers content : Bytes) (known : Option ℕ) (n : ℕ)
    → IsLength known content
    → if_known known (λ m. some (length headers + m)) ≡ some n
    → n ≡ length (headers ++ content)
unfolding if_known
open_length-eq headers content none n h e = cc
open_length-eq headers content (some m) n h e = ground (arith, length-append headers content)

file_length-eq :
    (headers : Bytes) (c : FileContent) (n : ℕ)
    → IsMeasuredContent c
    → file_length headers c ≡ some n
    → n ≡ length (headers ++ file_bytes c)
unfolding file_length
file_length-eq headers (in_text t) n h e =
    unfold file_bytes in ground (arith, length-append headers (encode_utf8 t))
file_length-eq headers (in_bytes b) n h e =
    unfold file_bytes in ground (arith, length-append headers b)
file_length-eq headers (open_file f) n h e =
    open_length-eq headers f.content f.known_length n h.0 e
    ∙ ap (λ b. length (headers ++ b)) (sym (file_bytes-open f h))
file_length-eq headers text_stream n h e = cc

get_length-eq :
    (f : Field) (n : ℕ) → IsMeasuredField f → get_length f ≡ some n → n ≡ length (render f)
unfolding get_length render
get_length-eq (data_field f) n h e =
    ground (arith, length-append (render_data_headers f) (data_bytes f.value))
get_length-eq (file_field f) n h e = file_length-eq (render_file_headers f) f.file n h e

if_known-some :
    (o : Option ℕ) (k : ℕ → Option ℕ) (n : ℕ)
    → if_known o k ≡ some n
    → (m : ℕ) × (o ≡ some m) × (k m ≡ some n)
unfolding if_known
if_known-some none k n e = cc
if_known-some (some m) k n e = (m, refl, e)

-- the bytes of one field with its boundary
framed :
    (boundary body rest : Bytes)
    → length (((codes "--" ++ (boundary ++ codes "\r\n")) ++ (body ++ (codes "\r\n" ++ rest))))
      ≡ 2 + length boundary + 2 + length body + 2 + length rest
framed boundary body rest = omega (
  arith,
  length-append {0} (codes "--" ++ (boundary ++ codes "\r\n")) (body ++ (codes "\r\n" ++ rest)),
  length-append {0} boundary (codes "\r\n"),
  length-append {0} body (codes "\r\n" ++ rest),
)

length_from-eq :
    (boundary : Bytes) (total : ℕ) (fields : List Field) (n : ℕ)
    → All IsMeasuredField fields
    → length_from (length boundary) total fields ≡ some n
    → n ≡ total + length (concat (iter_chunks boundary fields))
unfolding length_from iter_chunks
length_from-eq boundary total [] n h e = ground (
  arith,
  length-append boundary (codes "--\r\n"),
  length-append (codes "--" ++ (boundary ++ codes "--\r\n")) [],
)
length_from-eq boundary total (f ∷ fields) n (h, hs) e =
    let (m, k, e') = if_known-some (get_length f) _ n e in
    omega (
      arith,
      get_length-eq f m h k,
      length_from-eq boundary (total + (2 + length boundary + 2) + m + 2) fields n hs e',
      framed boundary (render f) (concat (iter_chunks boundary fields)),
    )

-- If each open file tells its true length, and can seek or stands at its start, a content length
-- that is announced is the number of bytes that the chunks hold.
pub get_content_length_lem :
    (s : MultipartStream) (n : ℕ)
    → All IsMeasuredField s.fields
    → get_content_length s ≡ some n
    → n ≡ length (concat (iter_chunks s.boundary s.fields))
unfolding get_content_length
get_content_length_lem s n h e = length_from-eq s.boundary 0 s.fields n h e ∙ omega arith

items-measured :
    (name : Text) (vs : List FieldValue)
    → All IsMeasuredField (map (λ v. data_field (record { name = name; value = v })) vs)
items-measured name [] = tt
items-measured name (v ∷ vs) = (tt, items-measured name vs)

-- form data is always measured
data_fields-measured : (form : Dict FormValue) → All IsMeasuredField (data_fields form)
unfolding data_fields
data_fields-measured [] = tt
data_fields-measured ((name, one v) ∷ items) = (tt, data_fields-measured items)
data_fields-measured ((name, many vs) ∷ items) =
    All-append IsMeasuredField (map (λ v. data_field (record { name = name; value = v })) vs)
      (data_fields items) (items-measured name vs) (data_fields-measured items)

module _ (p : Platform) where
  -- If the fields of the files are measured, those of the stream are.
  pub init-measured :
      (form : Dict FormValue) (files : List (Text × FileTypes)) (boundary : Option Bytes)
      (s : MultipartStream)
      → ((rest : List Field) → file_fields p files ≡ ok rest → All IsMeasuredField rest)
      → init p form files boundary ≡ ok s
      → All IsMeasuredField s.fields
  unfolding init
  init-measured form files boundary s h e =
      let (t, d, e') =
        ok-of_bind (decode ascii (given_boundary boundary p.random_boundary)) _ s e in
      let (rest, f, e'') = ok-of_bind (file_fields p files) _ s e' in
      subst (λ q. All IsMeasuredField q.fields) (ok-inj e'')
        (All-append IsMeasuredField (data_fields form) rest (data_fields-measured form) (h rest f))

  -- A form without files is measured.
  pub file_fields-nil : file_fields p [] ≡ ok []
  unfolding file_fields
  file_fields-nil = refl
