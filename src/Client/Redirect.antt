-- ===== src/Client/Redirect.antt =====
-- The request that follows a redirect: `_redirect_method`, `_redirect_url`, `_redirect_headers`,
-- `_redirect_stream` and `_build_redirect_request` of httpxp/_client.py.
mod Method
mod Carried
mod Tests
use httpxp.Prelude.{
  Bool, Option, Text, codes, if◌then◌else◌, is_nil, none, not, some, ℕ, ◌&&◌, ◌==◌, nat_eq, list_eq,
}
use httpxp.Exceptions.{key_error, invalid_url, remote_protocol_error}
use httpxp.Exceptions.Result
use httpxp.Exceptions.Result.{Result, ok, err}
use httpxp.Models.Headers
use httpxp.Models.Headers.Exec
use httpxp.Models.Headers.Exec.{Headers, M, lift, pure, ◌>>◌, ◌>>=◌}
use httpxp.Urls.Url
use httpxp.Urls.Url.{Url, UrlPlatform}
use httpxp.Client.Origin.{same_origin, is_https_redirect}

-- A request; its body and its extensions are objects that are only handed on. The method is in
-- upper case.
pub record Request : Type 0 where
  pub method : Text
  pub url : Url
  pub headers : Headers
  pub stream : Option ℕ
  pub extensions : ℕ

pub redirect_method : Text → ℕ → Text
redirect_method method status =
    let m₁ = if status == 303 && not (method == codes "HEAD") then codes "GET" else method in
    let m₂ = if status == 302 && not (m₁ == codes "HEAD") then codes "GET" else m₁ in
    if status == 301 && m₂ == codes "POST" then codes "GET" else m₂

drop_header : Text → M (Unit {0})
drop_header name = do Headers.pop name; pure tt

when : Bool → M (Unit {0}) → M (Unit {0})
when b m = if b then m else pure tt

-- the method has become GET
pub switched : Text → Text → Bool
switched old new = not (new == old) && new == codes "GET"

pub redirect_stream : Text → Option ℕ → Text → Option ℕ
redirect_stream old stream method = if switched old method then none else stream

module _ (p : UrlPlatform) where
  -- `except InvalidURL`
  parsed : Result Url → Result Url
  parsed (ok u) = ok u
  parsed (err invalid_url) = err remote_protocol_error
  parsed (err e) = err e

  with_host : Url → Url → Result Url
  with_host origin u =
      if is_nil u.scheme
      then ok u
      else Result.◌>>=◌ (Url.host p u) λ host.
        if is_nil host then Result.◌>>=◌ (Url.host p origin) (Url.copy_with_host p u) else ok u

  with_base : Url → Url → Result Url
  with_base origin u = if Url.is_relative_url u then Url.join_url p origin u else ok u

  with_fragment : Url → Url → Result Url
  with_fragment origin u =
      if not (is_nil (Url.fragment p origin)) && is_nil (Url.fragment p u)
      then Url.copy_with_fragment p u (Url.fragment p origin)
      else ok u

  -- `location` is the header of the response.
  pub redirect_url : Url → Text → Result Url
  redirect_url origin location = Result.◌>>=◌ (parsed (Url.parse p location)) λ u₁.
      Result.◌>>=◌ (with_host origin u₁)
        λ u₂. Result.◌>>=◌ (with_base origin u₂) λ u₃. with_fragment origin u₃

  -- The headers are a copy, to which the method is an action.
  pub redirect_headers : Url → Text → Url → Text → M (Unit {0})
  redirect_headers origin old url method = do
    same ← lift (same_origin p url origin)
    when (not same) (do
      upgrade ← lift (is_https_redirect p origin url)
      when (not upgrade) (drop_header (codes "Authorization"))
      Headers.set_item (codes "Host") (Url.netloc url))
    when (switched old method)
        (do drop_header (codes "Content-Length"); drop_header (codes "Transfer-Encoding"))
    drop_header (codes "Cookie")

  redirected_request : Request → Text → Url → Headers → Request
  redirected_request request method url headers = record request {
    method = method;
    url = url;
    headers = record headers { encoding = none };
    stream = redirect_stream request.method request.stream method;
  }

  -- the headers of a copy, once the action is done
  with_headers : Request → Text → Url → Result (Unit {0}) × Headers → Result Request
  with_headers request method url (ok _, headers) =
      ok (redirected_request request method url headers)
  with_headers request method url (err e, headers) = err e

  location_of : Option Text → Result Text
  location_of none = err key_error
  location_of (some location) = ok location

  -- `_build_redirect_request`, up to what the constructor of the request does with cookies and body
  pub build_redirect_request : Request → ℕ → Option Text → Result Request
  build_redirect_request request status location = Result.◌>>=◌ (location_of location) λ l.
      Result.◌>>=◌ (redirect_url request.url l) λ url.
        let method = redirect_method request.method status in
        with_headers request method url (
          redirect_headers request.url request.method url method
            (record request.headers { encoding = none }))
