-- ===== src/Content/Framing.antt =====
-- The headers of a body say where it ends.
use httpxp.Prelude.{
  All, Bool, Bytes, List, Option, Text, [], ap, codes, concat, false, if◌then◌else◌, inl, inr,
  is_nil, length, list_beq, none, not, refl, some, true, ℕ, ◌∷◌, ◌≡◌, ◌⊎◌, nat_eq,
}
use httpxp.Dict
use httpxp.Dict.{Dict}
use httpxp.Codec.{encode_utf8}
use httpxp.Exceptions.Result.{Result, ok, err, ◌>>=◌}
use httpxp.Multipart
use httpxp.Multipart.{
  headers_of, Field, FileTypes, FormValue, MultipartStream, get_content_length, get_headers,
  iter_chunks,
}
use httpxp.Multipart.Length.{IsMeasuredField, get_content_length_lem, init-measured}
use httpxp.UrlParse.Port.{int_to_str, pos}
use httpxp.Content.{
  BodyStream, Content, ContentPlatform, Encoded, RequestData, async_iterable, async_iterator_stream,
  byte_stream, chunked_header, encode_bytes, encode_content, encode_form, encode_given, encode_json,
  encode_json_or_empty, encode_multipart_data, encode_request, encode_urlencoded_data, form,
  in_bytes, iterable, iterator_stream, length_header, multipart_stream, not_a_mapping, other_value,
  source_headers, text, with_type,
}

-- the bytes that a stream gives
abbrev pub sent : BodyStream → Bytes
sent (byte_stream b) = b
sent (iterator_stream s) = concat s.parts
sent (async_iterator_stream s) = concat s.parts
sent (multipart_stream s) = concat (iter_chunks s.boundary s.fields)

-- A Content-Length that is the number of bytes, without a Transfer-Encoding; or no Content-Length,
-- and a chunked transfer, or no bytes.
abbrev pub IsFramed : Encoded → Type 0
IsFramed (headers, stream) =
    (Dict.lookup (codes "Content-Length") headers ≡ some (int_to_str (pos (length (sent stream)))))
      × (Dict.lookup (codes "Transfer-Encoding") headers ≡ none)
    ⊎ (Dict.lookup (codes "Content-Length") headers ≡ none)
      × ((Dict.lookup (codes "Transfer-Encoding") headers ≡ some (codes "chunked"))
          ⊎ (sent stream ≡ []))

-- What is encoded is framed; an exception is not held to anything.
abbrev pub IsFramedResult : Result Encoded → Type 0
IsFramedResult (ok e) = IsFramed e
IsFramedResult (err e) = Unit

-- The length that is found of an iterable is that of its parts.
abbrev pub IsMeasured : Content → Type 0
IsMeasured (iterable s) = (n : ℕ) → s.known_length ≡ some n → n ≡ length (concat s.parts)
IsMeasured c = Unit

encode_bytes-IsFramed : (b : Bytes) → IsFramed (encode_bytes b)
unfolding encode_bytes length_header Dict.lookup list_beq
encode_bytes-IsFramed [] = inr (refl, inr refl)
encode_bytes-IsFramed (c ∷ b) = inl (refl, refl)

source-IsFramed :
    (parts : List Bytes) (n : Option ℕ)
    → ((m : ℕ) → n ≡ some m → m ≡ length (concat parts))
    → IsFramed (source_headers n, iterator_stream (record { parts = parts; known_length = n }))
unfolding source_headers length_header chunked_header Dict.lookup list_beq
source-IsFramed parts none h = inr (refl, inl refl)
source-IsFramed parts (some n) h = inl (ap (λ m. some (int_to_str (pos m))) (h n refl), refl)

with_type-IsFramed : (body : Bytes) (content_type : Text) → IsFramed (with_type body content_type)
unfolding with_type Dict.lookup list_beq
with_type-IsFramed body content_type = inl (refl, refl)

encode_content-IsFramed : (c : Content) → IsMeasured c → IsFramedResult (encode_content c)
unfolding encode_content chunked_header Dict.lookup list_beq
encode_content-IsFramed (text s) h = encode_bytes-IsFramed (encode_utf8 s)
encode_content-IsFramed (in_bytes b) h = encode_bytes-IsFramed b
encode_content-IsFramed (iterable s) h = source-IsFramed s.parts s.known_length h
encode_content-IsFramed (async_iterable s) h = inr (refl, inl refl)
encode_content-IsFramed other_value h = tt

encode_json-IsFramed : (dumped : Result Text) → IsFramedResult (encode_json dumped)
unfolding encode_json
encode_json-IsFramed (ok s) = with_type-IsFramed (encode_utf8 s) (codes "application/json")
encode_json-IsFramed (err e) = tt

headers_of-IsFramed :
    (s : MultipartStream) (o : Option ℕ)
    → ((n : ℕ) → o ≡ some n → n ≡ length (concat (iter_chunks s.boundary s.fields)))
    → IsFramed (headers_of o s.content_type, multipart_stream s)
unfolding headers_of Dict.lookup list_beq
headers_of-IsFramed s none h = inr (refl, inl refl)
headers_of-IsFramed s (some n) h = inl (ap (λ m. some (int_to_str (pos m))) (h n refl), refl)

multipart-IsFramed :
    (s : MultipartStream)
    → All IsMeasuredField s.fields
    → IsFramed (get_headers s, multipart_stream s)
unfolding get_headers
multipart-IsFramed s h =
    headers_of-IsFramed s (get_content_length s) (λ n e. get_content_length_lem s n h e)

if-result :
    (P : Result Encoded → Type 0) (b : Bool) (x y : Result Encoded)
    → P x
    → P y
    → P (if b then x else y)
if-result P true x y h k = h
if-result P false x y h k = k

module _ (p : ContentPlatform) where
  -- Each open file tells its true length, and can seek or stands at its start.
  abbrev pub AreMeasured : List (Text × FileTypes) → Type 0
  AreMeasured files =
      (rest : List Field)
      → Multipart.file_fields p.multipart files ≡ ok rest
      → All IsMeasuredField rest

  stream-IsFramed :
      (r : Result MultipartStream)
      → ((s : MultipartStream) → r ≡ ok s → All IsMeasuredField s.fields)
      → IsFramedResult (r >>= λ s. ok (get_headers s, multipart_stream s))
  stream-IsFramed (ok s) h = multipart-IsFramed s (h s refl)
  stream-IsFramed (err e) h = tt

  urlencoded-IsFramed : (fields : Dict FormValue) → IsFramed (encode_urlencoded_data p fields)
  unfolding encode_urlencoded_data
  urlencoded-IsFramed fields = with_type-IsFramed _ _

  json-IsFramed : (json : Option (Result Text)) → IsFramedResult (encode_json_or_empty p json)
  unfolding encode_json_or_empty Dict.lookup list_beq
  json-IsFramed none = inr (refl, inr refl)
  json-IsFramed (some dumped) = encode_json-IsFramed dumped

  encode_form-IsFramed :
      (fields : Dict FormValue) (files : List (Text × FileTypes)) (json : Option (Result Text))
      (boundary : Option Bytes)
      → AreMeasured files
      → IsFramedResult (encode_form p fields files json boundary)
  unfolding encode_form encode_multipart_data
  encode_form-IsFramed fields files json boundary h =
      if-result IsFramedResult (not (is_nil files)) _ _
        (stream-IsFramed (Multipart.init p.multipart fields files boundary)
          (λ s e. init-measured p.multipart fields files boundary s h e))
        (if-result IsFramedResult (not (is_nil fields)) _ _ (urlencoded-IsFramed fields)
          (json-IsFramed json))

  encode_given-IsFramed :
      (content : Option Content) (fields : Dict FormValue) (files : List (Text × FileTypes))
      (json : Option (Result Text)) (boundary : Option Bytes)
      → ((c : Content) → content ≡ some c → IsMeasured c)
      → AreMeasured files
      → IsFramedResult (encode_given p content fields files json boundary)
  unfolding encode_given
  encode_given-IsFramed none fields files json boundary h k =
      encode_form-IsFramed fields files json boundary k
  encode_given-IsFramed (some c) fields files json boundary h k =
      encode_content-IsFramed c (h c refl)

  -- what `data` holds if it is no mapping
  abbrev pub IsMeasuredData : Option RequestData → Type 0
  IsMeasuredData none = Unit
  IsMeasuredData (some (form fields)) = Unit
  IsMeasuredData (some (not_a_mapping c)) = IsMeasured c

  -- If the length that is found of an iterable or of a file is the true one, then whatever a request
  -- is made of, its headers agree with its body: either there is a Content-Length, which is the
  -- number of bytes that the stream gives, and no Transfer-Encoding; or there is none, and the
  -- transfer is chunked or the body is empty.
  pub encode_request-IsFramed :
      (content : Option Content) (given : Option RequestData) (files : List (Text × FileTypes))
      (json : Option (Result Text)) (boundary : Option Bytes)
      → ((c : Content) → content ≡ some c → IsMeasured c)
      → IsMeasuredData given
      → AreMeasured files
      → IsFramedResult (encode_request p content given files json boundary)
  unfolding encode_request
  encode_request-IsFramed content none files json boundary h d k =
      encode_given-IsFramed content [] files json boundary h k
  encode_request-IsFramed content (some (form fields)) files json boundary h d k =
      encode_given-IsFramed content fields files json boundary h k
  encode_request-IsFramed content (some (not_a_mapping c)) files json boundary h d k =
      encode_content-IsFramed c d
