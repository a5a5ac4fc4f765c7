-- ===== src/Content.antt =====
-- httpxp/_content.py: the headers and the stream of a body. A source stands with the parts that it
-- gives and the length that `peek_filelike_length` finds, a JSON value with what `json.dumps` makes
-- of it.
mod Framing
mod Tests
use httpxp.Prelude.{
  Bytes, List, Option, Text, [], codes, if◌then◌else◌, is_nil, length, none, not, some, ℕ, ◌++◌,
  ◌∷◌,
}
use httpxp.Codec.{encode_utf8}
use httpxp.Dict.{Dict}
use httpxp.Exceptions.{type_error}
use httpxp.Exceptions.Result.{Result, ok, err, ◌>>=◌}
use httpxp.Multipart
use httpxp.Multipart.{
  FieldValue, FileTypes, FormValue, MultipartStream, get_headers, many, one, primitive, raw_bytes,
}
use httpxp.UrlParse.Port.{int_to_str, pos}
use httpxp.Utils.{primitive_value_to_str}

pub record Source : Type 0 where
  pub parts : List Bytes
  pub known_length : Option ℕ

-- `RequestContent`, or a value of another type
pub data Content : Type 0 where
  text : Text → Content
  in_bytes : Bytes → Content
  iterable : Source → Content
  async_iterable : Source → Content
  other_value : Content

pub data BodyStream : Type 0 where
  byte_stream : Bytes → BodyStream
  iterator_stream : Source → BodyStream
  async_iterator_stream : Source → BodyStream
  multipart_stream : MultipartStream → BodyStream

-- What an encoding answers.
abbrev pub Encoded : Type 0
Encoded = Dict Text × BodyStream

-- `{"Content-Length": str(n)}`
length_header : ℕ → Dict Text
length_header n = (codes "Content-Length", int_to_str (pos n)) ∷ []

chunked_header : Dict Text
chunked_header = (codes "Transfer-Encoding", codes "chunked") ∷ []

encode_bytes : Bytes → Encoded
encode_bytes body = (if is_nil body then [] else length_header (length body), byte_stream body)

source_headers : Option ℕ → Dict Text
source_headers none = chunked_header
source_headers (some n) = length_header n

pub encode_content : Content → Result Encoded
encode_content (text s) = ok (encode_bytes (encode_utf8 s))
encode_content (in_bytes b) = ok (encode_bytes b)
encode_content (iterable s) = ok (source_headers s.known_length, iterator_stream s)
encode_content (async_iterable s) = ok (chunked_header, async_iterator_stream s)
encode_content other_value = err type_error

-- a body with its type
with_type : Bytes → Text → Encoded
with_type body content_type = (
  (codes "Content-Length", int_to_str (pos (length body)))
      ∷ (codes "Content-Type", content_type)
      ∷ [],
  byte_stream body,
)

pub encode_text : Text → Encoded
encode_text s = with_type (encode_utf8 s) (codes "text/plain; charset=utf-8")

pub encode_html : Text → Encoded
encode_html s = with_type (encode_utf8 s) (codes "text/html; charset=utf-8")

pub encode_json : Result Text → Result Encoded
encode_json dumped = do s ← dumped; ok (with_type (encode_utf8 s) (codes "application/json"))

-- `urlencode` of pairs of texts, and `str` of bytes
pub record ContentPlatform : Type 0 where
  pub urlencode : List (Text × Text) → Text
  pub bytes_repr : Bytes → Text
  pub multipart : Multipart.Platform

-- the `data` argument: form data, or content as `requests` takes it
pub data RequestData : Type 0 where
  form : Dict FormValue → RequestData
  not_a_mapping : Content → RequestData

module _ (p : ContentPlatform) where
  value_to_str : FieldValue → Text
  value_to_str (raw_bytes b) = p.bytes_repr b
  value_to_str (primitive v) = primitive_value_to_str v

  item_pairs : Text → List FieldValue → List (Text × Text)
  item_pairs key [] = []
  item_pairs key (item ∷ items) = (key, value_to_str item) ∷ item_pairs key items

  plain_data : Dict FormValue → List (Text × Text)
  plain_data [] = []
  plain_data ((key, one value) ∷ fields) = (key, value_to_str value) ∷ plain_data fields
  plain_data ((key, many values) ∷ fields) = item_pairs key values ++ plain_data fields

  pub encode_urlencoded_data : Dict FormValue → Encoded
  encode_urlencoded_data fields =
      with_type (encode_utf8 (p.urlencode (plain_data fields)))
        (codes "application/x-www-form-urlencoded")

  pub encode_multipart_data :
      Dict FormValue → List (Text × FileTypes) → Option Bytes → Result Encoded
  encode_multipart_data fields files boundary = do
    s ← Multipart.init p.multipart fields files boundary
    ok (get_headers s, multipart_stream s)

  encode_json_or_empty : Option (Result Text) → Result Encoded
  encode_json_or_empty none = ok ([], byte_stream [])
  encode_json_or_empty (some dumped) = encode_json dumped

  -- the branches behind that on `content`; missing form data is empty
  encode_form :
      Dict FormValue
      → List (Text × FileTypes)
      → Option (Result Text)
      → Option Bytes
      → Result Encoded
  encode_form fields files json boundary =
      if not (is_nil files)
      then encode_multipart_data fields files boundary
      else if not (is_nil fields)
      then ok (encode_urlencoded_data fields)
      else encode_json_or_empty json

  encode_given :
      Option Content
      → Dict FormValue
      → List (Text × FileTypes)
      → Option (Result Text)
      → Option Bytes
      → Result Encoded
  encode_given (some content) fields files json boundary = encode_content content
  encode_given none fields files json boundary = encode_form fields files json boundary

  pub encode_request :
      Option Content
      → Option RequestData
      → List (Text × FileTypes)
      → Option (Result Text)
      → Option Bytes
      → Result Encoded
  encode_request content (some (not_a_mapping c)) files json boundary = encode_content c
  encode_request content (some (form fields)) files json boundary =
      encode_given content fields files json boundary
  encode_request content none files json boundary = encode_given content [] files json boundary

pub encode_response :
    Option Content → Option Text → Option Text → Option (Result Text) → Result Encoded
encode_response (some content) s html json = encode_content content
encode_response none (some s) html json = ok (encode_text s)
encode_response none none (some html) json = ok (encode_html html)
encode_response none none none (some dumped) = encode_json dumped
encode_response none none none none = ok ([], byte_stream [])
