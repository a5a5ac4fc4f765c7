-- ===== src/Transports/Asgi/Requested.antt =====
-- What an ASGI application gets of its request, and that an application which reads its request and
-- answers it gives a response.
use httpxp.Prelude.{
  Bool, Bytes, List, [], false, if◌then◌else◌, is_nil, none, not, some, suc, true, zero, ℕ, ◌&&◌,
  ◌++◌, ◌∷◌, nat_eq, list_eq,
}
use httpxp.Exceptions.{runtime_error}
use httpxp.Exceptions.Result.{Result, ok, err}
use httpxp.Transports.Asgi.{
  conclude, handled, ended, conclude, handled, ended, RawHeaders, Received, Task, finished, raising,
  receiving, request, disconnect, response_body, response_start, sending,
}

-- An application that awaits `receive` until there is no more body, at most `n` times, and goes on
-- with the whole body.
taken : (Bytes → Task) → (Bytes → Task) → Bytes → Result Received → Task
taken again k body (ok (request part true)) = again (body ++ part)
taken again k body (ok (request part false)) = k (body ++ part)
taken again k body (ok disconnect) = raising runtime_error
taken again k body (err e) = raising e

pub reads : ℕ → (Bytes → Task) → Bytes → Task
reads zero k body = raising runtime_error
reads (suc n) k body = receiving (taken (reads n k) k body)

-- An application that sends a start and then its parts, and stops at an exception.
when_sent : Task → Result (Unit {0}) → Task
when_sent t (ok _) = t
when_sent t (err e) = raising e

sends : List Bytes → Task
sends [] = sending (response_body none none) (when_sent finished)
sends (part ∷ parts) = sending (response_body (some part) (some true)) (when_sent (sends parts))

pub answers : ℕ → RawHeaders → List Bytes → Task
answers status headers parts =
    sending (response_start (some status) (some headers)) (when_sent (sends parts))

kept : Bool → List Bytes → List Bytes
kept is_head [] = []
kept is_head (part ∷ parts) =
    if not (is_nil part) && not is_head then part ∷ kept is_head parts else kept is_head parts
