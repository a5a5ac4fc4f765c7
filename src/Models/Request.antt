-- ===== src/Models/Request.antt =====
-- `Request` of httpxp/_models.py: the headers that `_prepare` adds, the constructor for an argument
-- `url` that is text and without `params`, and `content` and `read`. A stream stands with what its
-- iteration gives when the request is read.
mod Grown
mod Prepared
mod Tests
use httpxp.Prelude.{
  Bool, Bytes, List, Option, Text, [], codes, concat, false, if◌then◌else◌, is_nil, leb, lower, map,
  none, not, some, true, ◌&&◌, ◌++◌, ◌-◌, ◌==◌, ◌||◌, ◌∷◌, nat_eq, list_eq,
}
use httpxp.Codec.{encode, ascii}
use httpxp.Content.{
  Content, RequestData, BodyStream, ContentPlatform, byte_stream, iterator_stream,
  async_iterator_stream, multipart_stream, encode_request,
}
use httpxp.Dict.{Dict}
use httpxp.Exceptions.{request_not_read, assertion_error}
use httpxp.Exceptions.Result
use httpxp.Exceptions.Result.{Result, ok, err}
use httpxp.Models.Headers
use httpxp.Models.Headers.{HeaderTypes, raw_bytes, fields, contains, setdefault, get, encode_with}
use httpxp.Models.Headers.Exec.{Headers, M, pure, lift, ◌>>=◌, ◌>>◌}
use httpxp.Models.Headers.Views.{raw}
use httpxp.Multipart.{FileTypes, get_multipart_boundary_from_content_type, iter_chunks}
use httpxp.Urls.Url
use httpxp.Urls.Url.{Url, UrlPlatform}

-- an encoded body, or a stream of the caller with what joining its parts gives, if it is an iterable
pub data RequestStream : Type 0 where
  encoded : BodyStream → RequestStream
  given : Option (Result Bytes) → RequestStream

pub record Request : Type 0 where
  pub method : Text
  pub url : Url
  pub headers : Headers
  pub stream : RequestStream
  pub content : Option Bytes

-- `upper()` of ASCII
upper : Text → Text
upper s = map (λ c. if leb b'a' c && leb c b'z' then c - 32 else c) s

-- `key.lower() == "transfer-encoding" and "Content-Length" in self.headers`
is_skipped : Text → M Bool
is_skipped key =
    if lower key == codes "transfer-encoding" then contains (codes "Content-Length") else pure false

add_default : Text → Text → M (Unit {0})
add_default key value = do
  skipped ← is_skipped key
  if skipped then pure tt else (do setdefault key value; pure tt)

pub add_defaults : Dict Text → M (Unit {0})
add_defaults [] = pure tt
add_defaults ((key, value) ∷ default_headers) = do
  add_default key value
  add_defaults default_headers

-- `has_content_length`
is_framed : M Bool
is_framed = do
  found ← contains (codes "Content-Length")
  if found then pure true else contains (codes "Transfer-Encoding")

pub has_body : Text → Bool
has_body method = method == codes "POST" || method == codes "PUT" || method == codes "PATCH"

host_headers : Bool → Result Text → Text → Result (List (Bytes × Bytes))
host_headers has_host url_host netloc =
    if has_host
    then ok []
    else Result.◌>>=◌ url_host λ host.
      if is_nil host
      then ok []
      else Result.◌>>=◌ (encode ascii netloc) (λ n. ok ((codes "Host", n) ∷ []))

length_headers : Bool → Text → List (Bytes × Bytes)
length_headers has_content_length method =
    if not has_content_length && has_body method
    then (codes "Content-Length", codes "0") ∷ []
    else []

replaced : Result Headers → M (Unit {0})
replaced (ok new) h = (ok tt, new)
replaced (err e) h = (err e, h)

-- `self.headers = Headers(auto_headers + self.headers.raw)`
with_auto : List (Bytes × Bytes) → M (Unit {0})
with_auto auto_headers h =
    replaced
      (Headers.init (fields (map (λ x. (raw_bytes x.0, raw_bytes x.1)) (auto_headers ++ raw h)))
        none)
      h

-- `_prepare`, on the headers
pub prepare : UrlPlatform → Text → Url → Dict Text → M (Unit {0})
prepare p method url default_headers = do
  add_defaults default_headers
  has_host ← contains (codes "Host")
  has_content_length ← is_framed
  host ← lift (host_headers has_host (Url.host p url) (Url.netloc url))
  with_auto (host ++ length_headers has_content_length method)

-- the bytes of a stream, joined
joined : RequestStream → Result Bytes
joined (encoded (byte_stream b)) = ok b
joined (encoded (iterator_stream s)) = ok (concat s.parts)
joined (encoded (async_iterator_stream s)) = err assertion_error
joined (encoded (multipart_stream s)) = ok (concat (iter_chunks s.boundary s.fields))
joined (given none) = err assertion_error
joined (given (some r)) = r

is_byte_stream : RequestStream → Bool
is_byte_stream (encoded (byte_stream b)) = true
is_byte_stream _ = false

store : Request → Result Bytes → Result Bytes × Request
store r (err e) = (err e, r)
store r (ok b) = (
  ok b,
  record r {
    content = some b;
    stream = if is_byte_stream r.stream then r.stream else encoded (byte_stream b);
  },
)

pub read : Request → Result Bytes × Request
read r = elim r.content [ none ↦ store r (joined r.stream) | some b ↦ (ok b, r) ]

-- the property `content`
pub content_of : Request → Result Bytes
content_of r = elim r.content [ none ↦ err request_not_read | some b ↦ ok b ]

boundary_for : Option Text → M (Option Bytes)
boundary_for none = pure none
boundary_for (some []) = pure none
boundary_for (some (c ∷ content_type)) = do
  b ← encode_with (c ∷ content_type)
  pure (get_multipart_boundary_from_content_type b)

boundary : M (Option Bytes)
boundary = do content_type ← get (codes "content-type") none; boundary_for content_type

-- the arguments of the constructor
pub record RequestArguments : Type 0 where
  pub method : Text
  pub url : Text
  pub headers : HeaderTypes
  -- `Cookies(cookies).set_cookie_header(self)`, if there are cookies
  pub cookies : Option (M (Unit {0}))
  pub content : Option Content
  pub fields : Option RequestData
  pub files : List (Text × FileTypes)
  pub json : Option (Result Text)
  pub stream : Option RequestStream

-- `if isinstance(stream, ByteStream): self.read()`
loaded : Request → Request
loaded r = if is_byte_stream r.stream then (read r).1 else r

set_cookies : Option (M (Unit {0})) → M (Unit {0})
set_cookies none = pure tt
set_cookies (some m) = m

module _ (p : UrlPlatform) (q : ContentPlatform) where
  -- the branch without a stream, up to the headers; the stream is that of the encoded body
  encode_body : RequestArguments → Url → M BodyStream
  encode_body a url = do
    b ← boundary
    body ← lift (encode_request q a.content a.fields a.files a.json b)
    prepare p (upper a.method) url body.0
    pure body.1

  init_stream : RequestArguments → Url → Option RequestStream → M RequestStream
  init_stream a url none = do s ← encode_body a url; pure (encoded s)
  init_stream a url (some s) = pure s

  finished : RequestArguments → Url → Result RequestStream × Headers → Result Request
  finished a url (err e, h) = err e
  finished a url (ok s, h) =
      let r : Request = record {
        method = upper a.method;
        url = url;
        headers = h;
        stream = s;
        content = none;
      } in
      ok (elim a.stream [ none ↦ loaded r | some _ ↦ r ])

  pub init : RequestArguments → Result Request
  init a = Result.◌>>=◌ (Url.parse p a.url) λ url.
      Result.◌>>=◌ (Headers.init a.headers none)
        λ h. finished a url ((do set_cookies a.cookies; init_stream a url a.stream) h)
