-- ===== src/Api/Tests.antt =====
-- A request that raises, and the theorem on the functions of the API at that input. A world is how
-- often the transport 2 was left.
use httpxp.Prelude.{
  [], ap, arith, codes, if◌then◌else◌, none, refl, some, sym, ℕ, ◌+◌, ◌==◌, ◌∷◌, nat_eq,
}
use httpxp.Exceptions.{connect_error}
use httpxp.Exceptions.Result.{ok-inj, ok, err}
use httpxp.Api.{Client, CallArguments, ClientArguments, Outside, arguments_of, no_body, request}
use httpxp.Api.Left.{IsQuiet, Leaves, request-Leaves}
use httpxp.Client.Authenticated.{unopened}
use httpxp.Client.Calls
use httpxp.Client.Calls.{nothing, object}

abbrev outside : Outside ℕ ℕ ℕ
outside = record {
  new_client =
      λ _ w. (ok (record { state = unopened; transport = 1; mounts = some 2 ∷ none ∷ [] }), w);
  transports = record {
    enter = λ _ w. (ok tt, w);
    leave = λ n w. (ok tt, w + (if n == 2 then 1 else 0));
    close = λ _ w. (ok tt, w);
  };
  calls = record {
    build_request = λ _ _ _ s. (ok 5, s);
    send = λ _ _ _ _ s. (err connect_error, s);
    close_response = λ _ s. (ok tt, s);
  };
}

outside-IsQuiet : IsQuiet outside 2 (λ n. n)
outside-IsQuiet = record {
  new_client = λ _ w. (refl, λ c e. sym (ap (λ (x : Client). x.state) (ok-inj e)));
  transports = record { enter = λ _ w. (refl, omega arith); leave = λ _ w. (refl, refl) };
  build_request = λ _ _ _ _ _. (refl, refl, refl);
  send = λ _ _ _ _ _ _. (refl, refl, refl);
}

abbrev client_arguments : ClientArguments
client_arguments = record {
  cookies = nothing;
  proxy = nothing;
  verify = nothing;
  timeout = object 1;
  trust_env = nothing;
  privacy_options = nothing;
}

abbrev call_arguments : CallArguments
call_arguments = record {
  params = nothing;
  headers = nothing;
  auth = nothing;
  follow_redirects = nothing;
  extensions = nothing;
}

request-Leaves_example :
    Leaves outside 2
      (λ n. n)
      (Calls.request outside.calls
        (codes "GET")
        (codes "https://a.org/")
        (arguments_of no_body call_arguments))
      (outside.new_client client_arguments 0)
      (request outside
        (codes "GET")
        (codes "https://a.org/")
        client_arguments
        no_body
        call_arguments
        0)
request-Leaves_example =
    request-Leaves outside 2 (λ n. n) outside-IsQuiet (codes "GET") (codes "https://a.org/")
      client_arguments no_body call_arguments 0
