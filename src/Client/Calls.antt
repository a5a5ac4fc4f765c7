-- ===== src/Client/Calls.antt =====
-- `request`, `stream` and the methods named for HTTP methods of `Client` of httpxp/_client.py. An
-- argument is only handed on: it is the default of the client, `None` or an object.
use httpxp.Prelude.{Bool, Text, codes, false, true, ℕ}
use httpxp.Client.Exec.{keep_result, M, ◌>>=◌}

pub data Argument : Type 0 where
  use_client_default nothing : Argument
  object : ℕ → Argument

pub record Arguments : Type 0 where
  pub content : Argument
  pub fields : Argument
  pub files : Argument
  pub json : Argument
  pub params : Argument
  pub headers : Argument
  pub cookies : Argument
  pub auth : Argument
  pub follow_redirects : Argument
  pub timeout : Argument
  pub extensions : Argument

-- the arguments of the methods without a body
pub record ReadArguments : Type 0 where
  pub params : Argument
  pub headers : Argument
  pub cookies : Argument
  pub auth : Argument
  pub follow_redirects : Argument
  pub timeout : Argument
  pub extensions : Argument

pub without_body : ReadArguments → Arguments
without_body a = record {
  content = nothing;
  fields = nothing;
  files = nothing;
  json = nothing;
  params = a.params;
  headers = a.headers;
  cookies = a.cookies;
  auth = a.auth;
  follow_redirects = a.follow_redirects;
  timeout = a.timeout;
  extensions = a.extensions;
}

-- `build_request` without what `send` is given, `send` with the choice to stream, and the closing of a
-- response
pub record Calls (W Q R : Type 0) : Type 0 where
  pub build_request : Text → Text → Arguments → M W Q
  pub send : Q → Argument → Argument → Bool → M W R
  pub close_response : R → M W (Unit {0})

module _ {W Q R : Type 0} (c : Calls W Q R) where
  unfoldable pub request : Text → Text → Arguments → M W R
  request method url a = do
    q ← c.build_request method url a
    c.send q a.auth a.follow_redirects false

  closing_response : {A : Type 0} → (R → M W A) → R → M W A
  closing_response body r w = let (a, v) = body r w in keep_result a (c.close_response r v)

  -- `with client.stream(…) as response: body`
  pub stream : {A : Type 0} → Text → Text → Arguments → (R → M W A) → M W A
  stream method url a body = do
    q ← c.build_request method url a
    r ← c.send q a.auth a.follow_redirects true
    closing_response body r

  get : Text → ReadArguments → M W R
  get url a = request (codes "GET") url (without_body a)

  options : Text → ReadArguments → M W R
  options url a = request (codes "OPTIONS") url (without_body a)

  head : Text → ReadArguments → M W R
  head url a = request (codes "HEAD") url (without_body a)

  post : Text → Arguments → M W R
  post url a = request (codes "POST") url a

  put : Text → Arguments → M W R
  put url a = request (codes "PUT") url a

  patch : Text → Arguments → M W R
  patch url a = request (codes "PATCH") url a

  delete : Text → ReadArguments → M W R
  delete url a = request (codes "DELETE") url (without_body a)
