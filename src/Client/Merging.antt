-- ===== src/Client/Merging.antt =====
-- How `Client` of httpxp/_client.py merges what a call is given with what the client has:
-- `_merge_url`, `_merge_cookies`, `_merge_headers`, `_merge_queryparams`, `_build_auth`,
-- `_build_request_auth` and `_enforce_trailing_slash`.
use httpxp.Prelude.{
  Bool, Bytes, Option, Text, codes, ends_with, false, if◌then◌else◌, is_nil, lstrip, none, not,
  some, ◌&&◌, ◌++◌, ◌==◌, ◌||◌, nat_eq, list_eq,
}
use httpxp.Auth.{Auth, FlowPlatform, basic_auth_of, no_auth, function_auth}
use httpxp.Client.Redirect.{Request}
use httpxp.Codec.{encode_utf8}
use httpxp.Exceptions.{type_error}
use httpxp.Exceptions.Result.{Result, ok, err, ◌>>=◌}
use httpxp.Models.Cookies
use httpxp.Models.Cookies.{CookieTypes, Jar, cookies_of, jar_of}
use httpxp.Models.Headers
use httpxp.Models.Headers.{HeaderTypes}
use httpxp.Models.Headers.Exec.{Headers}
use httpxp.Urls.QueryParams
use httpxp.Urls.QueryParams.{
  QueryParams, QueryParamTypes, absent, string, query_params, pairs, mapping,
}
use httpxp.Urls.Url
use httpxp.Urls.Url.{Url, UrlPlatform, is_relative_url}
use httpxp.Urls.Url.Parts
use httpxp.Urls.Url.Parts.{raw_path}

-- `bool(cookies)`
is_given : CookieTypes → Bool
is_given Cookies.absent = false
is_given (Cookies.mapping l) = not (is_nil l)
is_given (Cookies.pairs l) = not (is_nil l)
is_given (cookies_of jar) = Cookies.is_true jar
is_given (jar_of jar) = Cookies.is_true jar

-- `_merge_cookies`, with the cookies of the client
pub merge_cookies : Jar → CookieTypes → CookieTypes
merge_cookies jar cookies =
    if is_given cookies || Cookies.is_true jar
    then cookies_of (Cookies.update cookies (Cookies.init (cookies_of jar)))
    else cookies

-- `_merge_headers`, with the headers of the client
pub merge_headers : Headers → HeaderTypes → Result (Unit {0}) × Headers
merge_headers headers argument = Headers.update argument headers

-- `bool(params)`
are_given : QueryParamTypes → Bool
are_given absent = false
are_given (string value) = not (is_nil value)
are_given (query_params q) = not (is_nil q)
are_given (pairs items) = not (is_nil items)
are_given (mapping items) = not (is_nil items)

-- `_merge_queryparams`, with the parameters of the client
pub merge_queryparams : (Text → QueryParams) → QueryParams → QueryParamTypes → QueryParamTypes
merge_queryparams parse_qs params argument =
    if are_given argument || not (is_nil params)
    then query_params (QueryParams.merge parse_qs params argument)
    else argument

-- `AuthTypes`, or another value
pub data AuthTypes : Type 0 where
  nothing : AuthTypes
  credentials : Bytes → Bytes → AuthTypes
  object : Auth → AuthTypes
  function : (Request → Request) → AuthTypes
  other_value : AuthTypes

module _ (p : FlowPlatform) where
  pub build_auth : AuthTypes → Result (Option Auth)
  build_auth nothing = ok none
  build_auth (credentials username password) = ok (some (basic_auth_of p username password))
  build_auth (object auth) = ok (some auth)
  build_auth (function func) = ok (some (function_auth func))
  build_auth other_value = err type_error

  -- the credentials of the URL
  url_auth : Url → Auth
  url_auth url =
      if is_nil (Parts.username p.url url) && is_nil (Parts.password p.url url)
      then no_auth
      else basic_auth_of p (encode_utf8 (Parts.username p.url url))
          (encode_utf8 (Parts.password p.url url))

  or_url_auth : Url → Option Auth → Auth
  or_url_auth url none = url_auth url
  or_url_auth url (some auth) = auth

  -- the argument; none of it stands for `USE_CLIENT_DEFAULT`
  chosen_auth : Option Auth → Option AuthTypes → Result (Option Auth)
  chosen_auth client none = ok client
  chosen_auth client (some auth) = build_auth auth

  -- `_build_request_auth`, with the authentication of the client
  pub build_request_auth : Option Auth → Url → Option AuthTypes → Result Auth
  build_request_auth client url argument = do
    auth ← chosen_auth client argument
    ok (or_url_auth url auth)

module _ (p : UrlPlatform) where
  -- `_enforce_trailing_slash`
  pub enforce_trailing_slash : Url → Result Url
  enforce_trailing_slash url = do
    path ← raw_path url
    (if ends_with path (codes "/")
        then ok url
        else Url.copy_with_raw_path p url (path ++ codes "/"))

  -- `_merge_url`, with the base URL of the client
  pub merge_url : Url → Url → Result Url
  merge_url base_url url =
      if is_relative_url url
      then (do
        base ← raw_path base_url
        path ← raw_path url
        Url.copy_with_raw_path p base_url (base ++ lstrip (λ c. c == b'/') path))
      else ok url
