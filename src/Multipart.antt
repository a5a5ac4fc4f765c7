-- ===== src/Multipart.antt =====
-- httpxp/_multipart.py: the fields of a form, the stream that renders them and its headers. A file
-- stands with its content, its position and what it tells of its length.
pub mod Length
mod Params
mod Boundary
mod Tests
use httpxp.Prelude.{
  Bool, Bytes, List, Option, Text, [], any, codes, concat, drop, if◌then◌else◌, is_infix, is_nil,
  leb, length, lower, lstrip, map, mem, none, not, rstrip, some, split, starts_with, ℕ, ◌&&◌, ◌++◌,
  ◌+◌, ◌==◌, ◌||◌, ◌∷◌, nat_eq, list_eq,
}
use httpxp.Exceptions.{type_error}
use httpxp.Exceptions.Result.{Result, ok, err, ◌>>=◌}
use httpxp.Codec.{ascii, decode, encode_utf8}
use httpxp.Dict
use httpxp.Dict.{Dict}
use httpxp.Utils.{Primitive, primitive_value_to_str}
use httpxp.UrlParse.Quote.{percent_byte}
use httpxp.UrlParse.Port.{pos, int_to_str}

-- `_HTML5_FORM_ENCODING_REPLACEMENTS.get(c, c)`
replaced : ℕ → Text
unfolding percent_byte
replaced c =
    if c == b'"'
    then codes "%22"
    else if c == 0x5C
    then codes "\\\\"
    else if leb c 0x1F && not (c == 0x1B)
    then percent_byte c
    else c ∷ []

replace_all : Text → Text
replace_all value = concat (map replaced value)

-- `_format_form_param`
pub format_form_param : Text → Text → Bytes
format_form_param name value =
    encode_utf8 (name ++ (codes "=\"" ++ (replace_all value ++ codes "\"")))

-- `bytes.strip()`
is_byte_space : ℕ → Bool
is_byte_space c = c == b' ' || (leb 0x09 c && leb c 0x0D)

strip_of : (ℕ → Bool) → Bytes → Bytes
strip_of p s = rstrip p (lstrip p s)

-- the loop over the sections of the content type
boundary_of : List Bytes → Option Bytes
boundary_of [] = none
boundary_of (section ∷ sections) =
    let rest = boundary_of sections in
    if starts_with (lower (strip_of is_byte_space section)) (codes "boundary=")
    then some (strip_of (λ c. c == b'"') (drop 9 (strip_of is_byte_space section)))
    else rest

pub get_multipart_boundary_from_content_type : Bytes → Option Bytes
get_multipart_boundary_from_content_type content_type =
    if starts_with content_type (codes "multipart/form-data") && mem b';' content_type
    then boundary_of (split b';' content_type)
    else none

pub data FieldValue : Type 0 where
  raw_bytes : Bytes → FieldValue
  primitive : Primitive → FieldValue

pub record DataField : Type 0 where
  pub name : Text
  pub value : FieldValue

-- `to_bytes(self.value)`
data_bytes : FieldValue → Bytes
data_bytes (raw_bytes b) = b
data_bytes (primitive p) = encode_utf8 (primitive_value_to_str p)

-- an open file; `known_length` is what `peek_filelike_length` finds
pub record OpenFile : Type 0 where
  pub content : Bytes
  pub position : ℕ
  pub seekable : Bool
  pub known_length : Option ℕ

-- a text stream is refused
pub data FileContent : Type 0 where
  in_text : Text → FileContent
  in_bytes : Bytes → FileContent
  open_file : OpenFile → FileContent
  text_stream : FileContent

-- the argument of a file field; the length of the tuple says what it holds
pub data FileTypes : Type 0 where
  plain : Option Text → FileContent → FileTypes
  tuple_2 : Option Text → FileContent → FileTypes
  tuple_3 : Option Text → FileContent → Option Text → FileTypes
  tuple_4 : Option Text → FileContent → Option Text → Dict Text → FileTypes

pub record FileField : Type 0 where
  pub name : Text
  pub filename : Option Text
  pub file : FileContent
  pub headers : Dict Text

has_content_type : Dict Text → Bool
has_content_type headers = any (λ e. is_infix (codes "content-type") (lower e.0)) headers

with_content_type : Option Text → Dict Text → Dict Text
with_content_type none headers = headers
with_content_type (some t) headers =
    if has_content_type headers then headers else Dict.put (codes "Content-Type") t headers

-- the two tests on text streams
checked : FileContent → Result FileContent
checked text_stream = err type_error
checked file = ok file

pub data Field : Type 0 where
  data_field : DataField → Field
  file_field : FileField → Field

-- a value of the form data
pub data FormValue : Type 0 where
  one : FieldValue → FormValue
  many : List FieldValue → FormValue

-- What the module takes from Python: the last part of a path, the type of a file name, and
-- sixteen random bytes in hexadecimal.
pub record Platform : Type 0 where
  pub path_name : Text → Text
  pub guess_type : Text → Option Text
  pub random_boundary : Bytes

render_data_headers : DataField → Bytes
render_data_headers f =
    codes "Content-Disposition: form-data; "
    ++ (format_form_param (codes "name") f.name ++ codes "\r\n\r\n")

-- `if self.filename`
filename_part : Option Text → Bytes
filename_part none = []
filename_part (some filename) =
    if is_nil filename then [] else codes "; " ++ format_form_param (codes "filename") filename

header_parts : Dict Text → Bytes
header_parts [] = []
header_parts ((key, value) ∷ headers) =
    encode_utf8 (codes "\r\n" ++ (key ++ codes ": ")) ++ (encode_utf8 value ++ header_parts headers)

render_file_headers : FileField → Bytes
render_file_headers f =
    codes "Content-Disposition: form-data; "
    ++ (format_form_param (codes "name") f.name
        ++ (filename_part f.filename ++ (header_parts f.headers ++ codes "\r\n\r\n")))

-- what the loop over `read` yields, in order: the content from the start if the file can seek
file_bytes : FileContent → Bytes
file_bytes (in_text t) = encode_utf8 t
file_bytes (in_bytes b) = b
file_bytes (open_file f) = if f.seekable then f.content else drop f.position f.content
file_bytes text_stream = []

-- no length is known if that of a field is not
if_known : Option ℕ → (ℕ → Option ℕ) → Option ℕ
if_known none k = none
if_known (some n) k = k n

file_length : Bytes → FileContent → Option ℕ
file_length headers (in_text t) = some (length headers + length (encode_utf8 t))
file_length headers (in_bytes b) = some (length headers + length b)
file_length headers (open_file f) = if_known f.known_length (λ n. some (length headers + n))
file_length headers text_stream = none

-- `get_length` of both classes
get_length : Field → Option ℕ
get_length (data_field f) = some (length (render_data_headers f) + length (data_bytes f.value))
get_length (file_field f) = file_length (render_file_headers f) f.file

-- `render` of both classes, the parts joined
render : Field → Bytes
render (data_field f) = render_data_headers f ++ data_bytes f.value
render (file_field f) = render_file_headers f ++ file_bytes f.file

pub record MultipartStream : Type 0 where
  pub boundary : Bytes
  pub content_type : Text
  pub fields : List Field

pub iter_chunks : Bytes → List Field → List Bytes
iter_chunks boundary [] = (codes "--" ++ (boundary ++ codes "--\r\n")) ∷ []
iter_chunks boundary (f ∷ fields) =
    (codes "--" ++ (boundary ++ codes "\r\n"))
    ∷ render f
    ∷ codes "\r\n"
    ∷ iter_chunks boundary fields

-- the loop of `get_content_length`
length_from : ℕ → ℕ → List Field → Option ℕ
length_from boundary_length total [] = some (total + (2 + boundary_length + 4))
length_from boundary_length total (f ∷ fields) =
    if_known (get_length f)
      (λ n. length_from boundary_length (total + (2 + boundary_length + 2) + n + 2) fields)

pub get_content_length : MultipartStream → Option ℕ
get_content_length s = length_from (length s.boundary) 0 s.fields

unfoldable pub headers_of : Option ℕ → Text → Dict Text
headers_of none content_type =
    (codes "Transfer-Encoding", codes "chunked") ∷ (codes "Content-Type", content_type) ∷ []
headers_of (some n) content_type =
    (codes "Content-Length", int_to_str (pos n)) ∷ (codes "Content-Type", content_type) ∷ []

unfoldable pub get_headers : MultipartStream → Dict Text
get_headers s = headers_of (get_content_length s) s.content_type

given_boundary : Option Bytes → Bytes → Bytes
given_boundary none random = random
given_boundary (some b) random = b

data_fields : Dict FormValue → List Field
data_fields [] = []
data_fields ((name, one v) ∷ items) =
    data_field (record { name = name; value = v }) ∷ data_fields items
data_fields ((name, many vs) ∷ items) =
    map (λ v. data_field (record { name = name; value = v })) vs ++ data_fields items

module _ (p : Platform) where
  guess_content_type : Option Text → Option Text
  guess_content_type none = none
  guess_content_type (some filename) =
      if is_nil filename then none else elim (p.guess_type filename) [
        | none ↦ some (codes "application/octet-stream")
        | some t ↦ some t
      ]

  -- the type that is given, or else guessed
  type_of : Option Text → Option Text → Option Text
  type_of none filename = guess_content_type filename
  type_of (some t) filename = some t

  file_field_with : Text → Option Text → FileContent → Option Text → Dict Text → Result Field
  file_field_with name filename file content_type headers = do
    f ← checked file
    ok (
        file_field (record {
          name = name;
          filename = filename;
          file = f;
          headers = with_content_type (type_of content_type filename) headers;
        }))

  -- the name of a file object, or "upload"
  plain_name : Option Text → Text
  plain_name none = p.path_name (codes "upload")
  plain_name (some name) = p.path_name name

  -- `FileField(name, value)`
  init_file_field : Text → FileTypes → Result Field
  init_file_field name (plain n file) = file_field_with name (some (plain_name n)) file none []
  init_file_field name (tuple_2 n file) = file_field_with name n file none []
  init_file_field name (tuple_3 n file t) = file_field_with name n file t []
  init_file_field name (tuple_4 n file t headers) = file_field_with name n file t headers

  pub file_fields : List (Text × FileTypes) → Result (List Field)
  file_fields [] = ok []
  file_fields ((name, value) ∷ items) = do
    f ← init_file_field name value
    rest ← file_fields items
    ok (f ∷ rest)

  -- `MultipartStream(data, files, boundary)`
  pub init : Dict FormValue → List (Text × FileTypes) → Option Bytes → Result MultipartStream
  init form files boundary = do
    let b = given_boundary boundary p.random_boundary
    text ← decode ascii b
    rest ← file_fields files
    ok (record {
      boundary = b;
      content_type = codes "multipart/form-data; boundary=" ++ text;
      fields = data_fields form ++ rest;
    })
