-- ===== src/Client/Send/Tests.antt =====
-- The theorem on the loop at an input: a server that redirects once.
use httpxp.Prelude.{
  [], arith, codes, if◌then◌else◌, none, refl, some, suc, true, ℕ, ◌==◌, ◌∷◌, ◌≡◌, nat_eq,
}
use httpxp.Exceptions.Result.{ok}
use httpxp.Client.Redirect.{Request}
use httpxp.Client.Send.{
  World, send_handling_redirects, Response, Returned, resume, round, guarded, handle, run_hooks,
  returned, has_redirect_location, is_redirect_status, is_some,
}
use httpxp.Client.Send.Limit.{send_handling_redirects-limit}

abbrev request : Request
request = record {
  method = codes "GET";
  url = record {
    scheme = codes "https";
    userinfo = [];
    host = codes "a.org";
    port = none;
    path = codes "/";
    query = none;
    fragment = none;
  };
  headers = record { entries = []; encoding = none };
  stream = none;
  extensions = 0;
}

-- The state counts the requests that are sent.
abbrev world : World ℕ
world = record {
  request_hooks = [];
  response_hooks = [];
  send_single_request = λ _ w. (
    ok (record {
      status = if w == 0 then 302 else 200;
      location = if w == 0 then some (codes "/b") else none;
      id = w;
    }),
    suc w,
  );
  finish_request = λ r w. (ok r, w);
  url_platform = record {
    platform = record {
      is_ipv4_address = λ _. true;
      is_ipv6_address = λ _. true;
      idna_encode = λ _. none;
      int_of = λ _. none;
    };
    idna_decode = λ s. ok s;
    unquote = λ s. s;
    urljoin = λ _ _. codes "https://a.org/b";
  };
  read = λ _ w. (ok tt, w);
  close = λ _ w. w;
}

abbrev moved : Response
moved = record { status = 302; location = some (codes "/b"); id = 0 }

abbrev answer : Returned
answer = record {
  response = record { status = 200; location = none; id = 1 };
  history = moved ∷ [];
  next_request = none;
}

-- behind one redirect, with a higher limit
returned_twenty :
    send_handling_redirects world true 3 20 request (moved ∷ []) 1 ≡ some (ok answer, 2)
unfolding send_handling_redirects resume round guarded handle run_hooks returned
    has_redirect_location is_redirect_status is_some
returned_twenty = refl

send_handling_redirects-limit_example :
    send_handling_redirects world true 3 1 request (moved ∷ []) 1 ≡ some (ok answer, 2)
send_handling_redirects-limit_example =
    send_handling_redirects-limit world true 3 20 1 request (moved ∷ []) 1 answer 2 returned_twenty
      (omega arith)
