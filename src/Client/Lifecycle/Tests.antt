-- ===== src/Client/Lifecycle/Tests.antt =====
-- Calls on a client whose second transport raises when it is closed: a world is the calls made so far.
use httpxp.Prelude.{List, [], if◌then◌else◌, ltb, none, refl, some, ℕ, ◌++◌, ◌∷◌, ◌≡◌}
use httpxp.Exceptions.{runtime_error, value_error}
use httpxp.Exceptions.Result.{ok, err}
use httpxp.Client.Authenticated.{closed, opened}
use httpxp.Client.Lifecycle.{
  Client, Operation, TransportMethods, close, close_in, closing, each_mount, each_transport, enter,
  enter_in, entering, leave, marked, of_client, perform, run, sending, use_in, used,
}
use httpxp.Client.Lifecycle.Closed.{StaysClosed, run-StaysClosed}

abbrev methods : TransportMethods (List ℕ)
methods = record {
  enter = λ n w. (ok tt, w);
  leave = λ n w. (ok tt, w ++ n ∷ []);
  close = λ n w. ((if ltb n 2 then ok tt else err value_error), w ++ n ∷ []);
}

abbrev client : Client
client = record { state = opened; transport = 1; mounts = none ∷ some 2 ∷ some 3 ∷ [] }

abbrev calls : List (Operation (List ℕ))
calls = sending (λ w. (ok tt, w)) ∷ closing ∷ entering ∷ sending (λ w. (ok tt, [])) ∷ []

-- The third transport is not closed where the second raises, and the client is closed all the same.
raising : run methods calls (client, []) ≡ (
  ok tt ∷ err value_error ∷ err runtime_error ∷ err runtime_error ∷ [],
  (record client { state = closed }, 1 ∷ 2 ∷ []),
)
unfolding run perform enter enter_in leave close close_in used use_in marked of_client
    each_transport each_mount
raising = refl

run-StaysClosed_example :
    StaysClosed methods calls
      (perform methods closing (client, [])).1.1
      (run methods calls (perform methods closing (client, [])).1)
run-StaysClosed_example = run-StaysClosed methods closing calls client [] refl
