-- ===== src/Api.antt =====
-- httpxp/_api.py: each function makes a client, enters it and passes its arguments on.
mod Left
mod Tests
use httpxp.Prelude.{Text, codes}
use httpxp.Exceptions.Result.{Result, ok, err}
use httpxp.Client.Calls
use httpxp.Client.Calls.{Argument, Arguments, Calls, nothing, use_client_default}
use httpxp.Client.Exec.{M, keep_result, ◌>>=◌}
use httpxp.Client.Lifecycle
use httpxp.Client.Lifecycle.{Client, TransportMethods}

-- the arguments of the client
pub record ClientArguments : Type 0 where
  pub cookies : Argument
  pub proxy : Argument
  pub verify : Argument
  pub timeout : Argument
  pub trust_env : Argument
  pub privacy_options : Argument

-- the arguments of its method
pub record BodyArguments : Type 0 where
  pub content : Argument
  pub fields : Argument
  pub files : Argument
  pub json : Argument

pub record CallArguments : Type 0 where
  pub params : Argument
  pub headers : Argument
  pub auth : Argument
  pub follow_redirects : Argument
  pub extensions : Argument

no_body : BodyArguments
no_body = record { content = nothing; fields = nothing; files = nothing; json = nothing }

pub arguments_of : BodyArguments → CallArguments → Arguments
arguments_of b a = record {
  content = b.content;
  fields = b.fields;
  files = b.files;
  json = b.json;
  params = a.params;
  headers = a.headers;
  cookies = nothing;
  auth = a.auth;
  follow_redirects = a.follow_redirects;
  timeout = use_client_default;
  extensions = a.extensions;
}

-- the constructor of `Client`, its transports, and what its methods do on it and on the outside
pub record Outside (W Q R : Type 0) : Type 0 where
  pub new_client : ClientArguments → M W Client
  pub transports : TransportMethods W
  pub calls : Calls (Client × W) Q R

module _ {W Q R : Type 0} (o : Outside W Q R) where
  module _ {A : Type 0} (body : M (Client × W) A) where
    -- the client is not used any more
    dropped : Result A × (Client × W) → Result A × W
    dropped (r, (c, w)) = (r, w)

    leaving : Result A × (Client × W) → Result A × (Client × W)
    leaving (r, s) = keep_result r (Lifecycle.leave o.transports s)

    entered : Result (Unit {0}) × (Client × W) → Result A × W
    entered (err e, (c, w)) = (err e, w)
    entered (ok _, s) = dropped (leaving (body s))

    -- `with Client(…) as client: body`
    pub with_client : ClientArguments → M W A
    with_client a = do c ← o.new_client a; λ w. entered (Lifecycle.enter o.transports (c, w))

  pub request : Text → Text → ClientArguments → BodyArguments → CallArguments → M W R
  request method url c b a = with_client (Calls.request o.calls method url (arguments_of b a)) c

  pub stream :
      {A : Type 0}
      → Text
      → Text
      → ClientArguments
      → BodyArguments
      → CallArguments
      → (R → M (Client × W) A)
      → M W A
  stream method url c b a body =
      with_client (Calls.stream o.calls method url (arguments_of b a) body) c

  get : Text → ClientArguments → CallArguments → M W R
  get url c a = request (codes "GET") url c no_body a

  options : Text → ClientArguments → CallArguments → M W R
  options url c a = request (codes "OPTIONS") url c no_body a

  head : Text → ClientArguments → CallArguments → M W R
  head url c a = request (codes "HEAD") url c no_body a

  post : Text → ClientArguments → BodyArguments → CallArguments → M W R
  post url c b a = request (codes "POST") url c b a

  put : Text → ClientArguments → BodyArguments → CallArguments → M W R
  put url c b a = request (codes "PUT") url c b a

  patch : Text → ClientArguments → BodyArguments → CallArguments → M W R
  patch url c b a = request (codes "PATCH") url c b a

  delete : Text → ClientArguments → CallArguments → M W R
  delete url c a = request (codes "DELETE") url c no_body a
