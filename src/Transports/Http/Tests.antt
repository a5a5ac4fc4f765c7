-- ===== src/Transports/Http/Tests.antt =====
-- Runs of the loop over the attempts: a world is the answers that the native client will give and
-- the waits so far.
use httpxp.Prelude.{
  List, [], arith, drop, list_beq, none, refl, some, true, ℕ, ◌++◌, ◌+◌, ◌∷◌, ◌≡◌, nat_eq, list_eq,
}
use httpxp.Exceptions.{connect_error, connect_timeout, read_error, request_not_read}
use httpxp.Exceptions.Result.{Result, ok, err}
use httpxp.Client.Exec.{M}
use httpxp.Dict.{Dict}
use httpxp.Transports.Samples.{url}
use httpxp.Transports.Http.{
  request_options, request_body, Body, HttpRequest, OptionValue, arguments, handle_request,
  attempts, sent, tried, pause, is_connect,
}
use httpxp.Transports.Http.Attempts.{Handled, IsCounted, handle_request-Handled}

abbrev World : Type 0
World = List (Result ℕ) × ℕ × List ℕ

abbrev answer : List (Result ℕ) → Result ℕ
answer [] = err read_error
answer (r ∷ _) = r

abbrev send : Body → Dict OptionValue → M World ℕ
send body options w = (answer w.0, (drop 1 w.0, w.1 + 1, w.2))

abbrev sleep : ℕ → World → World
sleep d w = (w.0, w.1, w.2 ++ d ∷ [])

abbrev total : List ℕ → ℕ
total [] = 0
total (d ∷ l) = d + total l

total-append : (l : List ℕ) (d : ℕ) → total (l ++ d ∷ []) ≡ total l + d
total-append [] d = omega arith
total-append (e ∷ l) d = omega (arith, total-append l d)

counted : IsCounted send sleep (λ w. w.1) (λ w. total w.2)
counted = record {
  send_tries = λ _ _ _. refl;
  send_waited = λ _ _ _. refl;
  sleep_tries = λ _ _. refl;
  sleep_waited = λ d w. total-append w.2 d;
}

abbrev given : HttpRequest
given = record {
  url = url;
  content = err request_not_read;
  timeout = none;
  private_options = none;
  is_sync = true;
}

abbrev busy : World
busy = (err connect_error ∷ err connect_timeout ∷ err connect_error ∷ ok 7 ∷ [], 0, [])

-- Three failures to connect are retried: at once, after half a second and after a second.
retried : handle_request send sleep 3 given busy ≡ some (ok 7, ([], 4, 1 ∷ 2 ∷ []))
unfolding handle_request arguments sent attempts tried pause is_connect request_body request_options
    list_beq
retried = refl

handle_request-Handled_example :
    Handled send sleep
      (λ w. w.1)
      (λ w. total w.2)
      counted
      3
      (arguments given)
      busy
      (handle_request send sleep 3 given busy)
handle_request-Handled_example =
    handle_request-Handled send sleep (λ w. w.1) (λ w. total w.2) counted 3 given busy
