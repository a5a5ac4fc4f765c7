-- ===== src/Transports/Asgi/Log.antt =====
-- The messages that an ASGI application sent, and how the variables of its exchange follow them.
use httpxp.Transports.Asgi.{
  Exchange, Message, RawHeaders, Task, finished, or_default, raising, receive, receiving,
  response_body, response_start, send, sending,
}
use httpxp.Prelude.{
  Bool, Bytes, List, Option, [], concat, false, if◌then◌else◌, map, none, some, true, ℕ, ◌++◌, ◌∷◌,
  ◌≡◌, list_eq,
}
use httpxp.Exceptions.Result.{Result, ok, err}

-- the messages of a run whose `send` returned, in their order
abbrev pub accept : Message → Result (Unit {0}) → List Message
accept m (ok _) = m ∷ []
accept m (err e) = []

unfoldable pub accepted : Bool → Task → Exchange → List Message
accepted is_head (receiving k) x = elim (receive x) [
  | none ↦ []
  | some (r, y) ↦ accepted is_head (k r) y
]
accepted is_head (sending m k) x =
    accept m (send is_head m x).0 ++ accepted is_head (k (send is_head m x).0) (send is_head m x).1
accepted is_head finished x = []
accepted is_head (raising e) x = []

-- the statuses with the headers, and the bodies, each with whether more was to come
abbrev pub starts_of : Message → List (Option ℕ × RawHeaders)
starts_of (response_start status headers) = (status, or_default [] headers) ∷ []
starts_of _ = []

abbrev pub bodies_of : Message → List (Bytes × Bool)
bodies_of (response_body body more_body) = (or_default [] body, or_default false more_body) ∷ []
bodies_of _ = []

abbrev pub starts : List Message → List (Option ℕ × RawHeaders)
starts log = concat (map starts_of log)

abbrev pub bodies : List Message → List (Bytes × Bool)
bodies log = concat (map bodies_of log)

abbrev pub sent_body : Bool → List (Bytes × Bool) → Bytes
sent_body is_head l = if is_head then [] else concat (map (λ b. b.0) l)

-- A body with nothing more to come is the last, and there is one exactly if `complete` says so.
abbrev pub IsEnded : List (Bytes × Bool) → Bool → Type 0
IsEnded [] complete = complete ≡ false
IsEnded ((_, true) ∷ l) complete = IsEnded l complete
IsEnded ((_, false) ∷ l) complete = (l ≡ []) × (complete ≡ true)

-- the starts that the variables tell of
abbrev pub recorded : Bool → Option ℕ → Option RawHeaders → Option (List (Option ℕ × RawHeaders))
recorded false none none = some []
recorded true (some status) (some headers) = some ((some status, headers) ∷ [])
recorded _ _ _ = none

pub record Tracks (is_head : Bool) (log : List Message) (x : Exchange) : Type 0 where
  pub started : recorded x.response_started x.status_code x.response_headers ≡ some (starts log)
  pub body : concat x.body_parts ≡ sent_body is_head (bodies log)
  pub complete : IsEnded (bodies log) x.response_complete
