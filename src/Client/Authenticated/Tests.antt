-- ===== src/Client/Authenticated/Tests.antt =====
-- The theorems on sending with authentication at an input: a server that asks once for digest
-- authentication.
use httpxp.Prelude.{[], codes, if◌then◌else◌, none, suc, true, ℕ, ◌==◌, ◌∷◌, nat_eq}
use httpxp.Exceptions.Result.{ok}
use httpxp.Auth.{Auth, FlowPlatform, digest_auth}
use httpxp.Client.Authenticated.{AuthWorld, send_handling_auth}
use httpxp.Client.Authenticated.Ending.{Ends, send_handling_auth-Ends}
use httpxp.Client.Redirect.{Request}
use httpxp.Client.Send.{World}

abbrev request : Request
request = record {
  method = codes "GET";
  url = record {
    scheme = codes "https";
    userinfo = [];
    host = codes "a.org";
    port = none;
    path = codes "/";
    query = none;
    fragment = none;
  };
  headers = record { entries = []; encoding = none };
  stream = none;
  extensions = 0;
}

-- The state counts the requests that are sent; the first is refused.
abbrev world : World ℕ
world = record {
  request_hooks = [];
  response_hooks = [];
  send_single_request =
      λ _ w. (ok (record { status = if w == 0 then 401 else 200; location = none; id = w }), suc w);
  finish_request = λ r w. (ok r, w);
  url_platform = record {
    platform = record {
      is_ipv4_address = λ _. true;
      is_ipv6_address = λ _. true;
      idna_encode = λ _. none;
      int_of = λ _. none;
    };
    idna_decode = λ s. ok s;
    unquote = λ s. s;
    urljoin = λ _ _. codes "https://a.org/b";
  };
  read = λ _ w. (ok tt, w);
  close = λ _ w. w;
}

abbrev flow : FlowPlatform
flow = record {
  auth = record {
    md5 = λ b. b;
    sha1 = λ b. b;
    sha256 = λ b. b;
    sha512 = λ b. b;
    upper = λ s. s;
    ctime = codes "now";
    urandom = [];
  };
  url = world.url_platform;
  b64encode = λ b. b;
  authenticators = λ _. none;
  set_cookie_header = λ _ r. ok r;
}

abbrev outer : AuthWorld ℕ
outer = record {
  world = world;
  flow = flow;
  headers_of = λ _. record {
    entries =
        record {
          raw = codes "WWW-Authenticate";
          key = codes "www-authenticate";
          value = codes "Digest realm=\"r\", nonce=\"n\", qop=\"auth\"";
        }
        ∷ [];
    encoding = none;
  };
}

abbrev auth : Auth
auth = digest_auth (record {
  username = codes "user";
  password = codes "pass";
  last_challenge = none;
  nonce_count = 1;
})

send_handling_auth-Ends_example :
    Ends outer true 20 (send_handling_auth outer true 20 request auth [] 0)
send_handling_auth-Ends_example = send_handling_auth-Ends outer true 20 request auth [] 0
