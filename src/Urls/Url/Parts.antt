-- ===== src/Urls/Url/Parts.antt =====
-- The properties of `URL` of httpxp/_urls.py that read one part of the parse result. A property of
-- bytes encodes its text.
use httpxp.Prelude.{
  Bool, Bytes, Option, Text, codes, if◌then◌else◌, is_nil, none, not, partition, some, ◌&&◌, ◌++◌,
}
use httpxp.Exceptions.Result.{Result}
use httpxp.Codec.{ascii, encode}
use httpxp.UrlParse.Port.{ℤ}
use httpxp.Urls.QueryParams
use httpxp.Urls.QueryParams.{QueryParams, QueryParamTypes}
use httpxp.Urls.Url.{Url, UrlPlatform}

scheme : Url → Text
scheme u = u.scheme

raw_scheme : Url → Result Bytes
raw_scheme u = encode ascii u.scheme

userinfo : Url → Result Bytes
userinfo u = encode ascii u.userinfo

raw_host : Url → Result Bytes
raw_host u = encode ascii u.host

port : Url → Option ℤ
port u = u.port

-- `text or default`
text_or : Text → Text → Text
text_or s default = if is_nil s then default else s

query_or_empty : Option Text → Text
query_or_empty none = codes ""
query_or_empty (some s) = s

unfoldable pub query : Url → Result Bytes
unfolding query_or_empty
query u = encode ascii (query_or_empty u.query)

target : Text → Option Text → Text
target path none = text_or path (codes "/")
target path (some s) = text_or path (codes "/") ++ codes "?" ++ s

unfoldable pub raw_path : Url → Result Bytes
unfolding target text_or
raw_path u = encode ascii (target u.path u.query)

is_absolute_url : Url → Bool
is_absolute_url u = not (is_nil u.scheme) && not (is_nil u.host)

module _ (p : UrlPlatform) where
  pub username : Url → Text
  username u = p.unquote (partition b':' u.userinfo).0

  pub password : Url → Text
  password u = p.unquote (partition b':' u.userinfo).2

  unfoldable pub path : Url → Text
  unfolding text_or
  path u = p.unquote (text_or u.path (codes "/"))

-- `QueryParams` of a text that may be missing; `urllib.parse.parse_qs` is a parameter.
params_of : Option Text → QueryParamTypes
params_of none = QueryParamTypes.absent
params_of (some s) = QueryParamTypes.string s

params : (Text → QueryParams) → Url → QueryParams
params parse_qs u = QueryParams.init parse_qs (params_of u.query)
