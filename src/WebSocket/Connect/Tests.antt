-- ===== src/WebSocket/Connect/Tests.antt =====
-- A connection whose hook raises, and the theorem on connections at that input.
use httpxp.Prelude.{[], codes, none, refl, true, ℕ, ◌+◌, ◌∷◌, list_eq}
use httpxp.Exceptions.{value_error}
use httpxp.Exceptions.Result.{ok, err}
use httpxp.Client.Authenticated.{unopened}
use httpxp.Transports.Samples.{url_platform}
use httpxp.WebSocket.Connect.{Opening, connect}
use httpxp.WebSocket.Connect.Released.{Counts, IsCounted, Released, connect-Released}

-- the sockets that were opened and closed
abbrev World : Type 0
World = ℕ × ℕ

abbrev opening : Opening World ℕ ℕ
opening = record {
  url_platform = url_platform;
  build_request =
      λ u w. (ok (record { url = u; private_options = none; timeout = none; id = 1 }), w);
  build_flow = λ _ w. (ok tt, w);
  first_request = λ q w. (ok q, w);
  close_flow = λ w. (ok tt, w);
  request_hooks = (λ _ w. (ok tt, w)) ∷ [];
  is_http = λ _. true;
  websocket = λ _ _ w. (ok 7, (w.0 + 1, w.1));
  response_of = λ n _. ok n;
  extract_cookies = λ _ w. (ok tt, w);
  response_hooks = (λ _ w. (err value_error, w)) ∷ [];
  close_socket = λ _ w. (ok tt, (w.0, w.1 + 1));
}

abbrev counts : Counts World
counts = record { opens = λ w. w.0; closes = λ w. w.1 }

opening-IsCounted : IsCounted counts opening
opening-IsCounted = record {
  build_request = λ _ _. (refl, refl);
  build_flow = λ _ _. (refl, refl);
  first_request = λ _ _. (refl, refl);
  close_flow = λ _. ((refl, refl), refl);
  request_hooks = λ _. ((λ _. (refl, refl)), tt);
  websocket = λ _ _ _. (refl, refl);
  response_of = λ n _. (n, refl);
  extract_cookies = λ _ _. (refl, refl);
  response_hooks = λ _. ((λ _. (refl, refl)), tt);
  close_socket = λ _ _. (refl, refl);
}

connect-Released_example :
    Released counts
      (0, 0)
      (
        (connect opening (codes "https://a.org/") [] (unopened, (0, 0))).0,
        (connect opening (codes "https://a.org/") [] (unopened, (0, 0))).1.1,
      )
connect-Released_example =
    connect-Released counts opening opening-IsCounted (codes "https://a.org/") [] unopened (0, 0)
