-- ===== src/Transports/Asgi/Tracking.antt =====
-- Every call of an ASGI application keeps the variables in step with the messages.
use httpxp.Transports.Asgi.{
  Exchange, Message, RawHeaders, Received, Task, add_body, finished, next_chunk, or_default,
  other_type, raising, receive, receiving, response_body, response_start, run, send, sending, start,
  stream_ended, untyped,
}
use httpxp.Prelude.{
  Bool, Bool-cases, Bytes, List, Option, Option-cases, [], ap, append-nil, append_assoc, concat,
  concat-append, false, if◌then◌else◌, inl, inr, is_nil, map, none, not, refl, some, sym, true, ℕ,
  ◌&&◌, ◌++◌, ◌||◌, ◌∙◌, ◌∷◌, ◌≡◌, list_eq,
}
use httpxp.Exceptions.Result.{Result, ok, err}
use httpxp.Transports.Asgi.Log.{
  Tracks, accept, accepted, starts, bodies, sent_body, IsEnded, recorded,
}

map-concat-append :
    (l : List (Bytes × Bool)) (body : Bytes) (more : Bool)
    → concat (map (λ b. b.0) (l ++ (body, more) ∷ [])) ≡ concat (map (λ b. b.0) l) ++ body
map-concat-append [] body more = rw append-nil
map-concat-append (b ∷ l) body more = rw (map-concat-append l body more) (rw append_assoc)

concat-add :
    (parts : List Bytes) (body : Bytes) → concat (parts ++ body ∷ []) ≡ concat parts ++ body
concat-add parts body = rw (concat-append parts (body ∷ [])) (rw append-nil)

sent_body-append :
    (is_head : Bool) (parts : List Bytes) (l : List (Bytes × Bool)) (body : Bytes) (more : Bool)
    → concat parts ≡ sent_body is_head l
    → concat (if not (is_nil body) && not is_head then parts ++ body ∷ [] else parts)
      ≡ sent_body is_head (l ++ (body, more) ∷ [])
sent_body-append true parts l [] more h = h
sent_body-append true parts l (_ ∷ _) more h = h
sent_body-append false parts l [] more h = rw (map-concat-append l [] more) (rw append-nil h)
sent_body-append false parts l (c ∷ body) more h =
    concat-add parts (c ∷ body)
    ∙ ap (λ t. t ++ c ∷ body) h
    ∙ sym (map-concat-append l (c ∷ body) more)

module _ (is_head : Bool) where
  next_chunk-Tracks :
      (parts : List Bytes) (log : List Message) (x : Exchange)
      → Tracks is_head log x
      → Tracks is_head log (next_chunk parts x).1
  unfolding next_chunk stream_ended
  next_chunk-Tracks [] log x h = elim x.ending as (λ r. Tracks is_head log (stream_ended r x).1) [
    | ok _ ↦ record { started = h.started; body = h.body; complete = h.complete }
    | err e ↦ record { started = h.started; body = h.body; complete = h.complete }
  ]
  next_chunk-Tracks (part ∷ parts) log x h = record {
    started = h.started;
    body = h.body;
    complete = h.complete;
  }

  receive-Tracks :
      (log : List Message) (x : Exchange) (r : Result Received) (y : Exchange)
      → receive x ≡ some (r, y)
      → Tracks is_head log x
      → Tracks is_head log y
  unfolding receive
  receive-Tracks log x r y e h = elim (Bool-cases x.request_complete) [
    | inl done ↦ elim (Bool-cases x.response_complete) [
      | inl c ↦ let q : y ≡ x = cc in rw q h
      | inr c ↦ absurd (cc)
    ]
    | inr more ↦
        let q : (next_chunk x.parts x).1 ≡ y = cc in rw (← q) (next_chunk-Tracks x.parts log x h)
  ]

  starts-append : (l k : List Message) → starts (l ++ k) ≡ starts l ++ starts k
  starts-append [] k = refl
  starts-append (m ∷ l) k = simp (starts-append l k, append_assoc)

  bodies-append : (l k : List Message) → bodies (l ++ k) ≡ bodies l ++ bodies k
  bodies-append [] k = refl
  bodies-append (m ∷ l) k = simp (bodies-append l k, append_assoc)

  Tracks-append :
      (log new : List Message) (y : Exchange)
      → recorded y.response_started y.status_code y.response_headers
        ≡ some (starts log ++ starts new)
      → concat y.body_parts ≡ sent_body is_head (bodies log ++ bodies new)
      → IsEnded (bodies log ++ bodies new) y.response_complete
      → Tracks is_head (log ++ new) y
  Tracks-append log new y s b e = record {
    started = rw (starts-append log new) s;
    body = rw (bodies-append log new) b;
    complete = rw (bodies-append log new) e;
  }

  recorded-nil :
      (s : Option ℕ) (h : Option RawHeaders) (l : List (Option ℕ × RawHeaders))
      → recorded false s h ≡ some l
      → l ≡ []
  recorded-nil none none l e = cc
  recorded-nil none (some _) l e = absurd (cc e)
  recorded-nil (some _) h l e = absurd (cc e)

  start-Tracks :
      (status : Option ℕ) (headers : Option RawHeaders) (log : List Message) (x : Exchange)
      → x.response_started ≡ false
      → Tracks is_head log x
      → Tracks is_head
          (log ++ accept (response_start status headers) (start status headers x).0)
          (start status headers x).1
  unfolding start
  start-Tracks none headers log x new h = rw append-nil h
  start-Tracks (some status) headers log x new h =
      Tracks-append log _ _
        (rw (recorded-nil x.status_code x.response_headers (starts log) (rw new at h.started)) refl)
        (rw append-nil h.body) (rw append-nil h.complete)

  IsEnded-append :
      (l : List (Bytes × Bool)) (body : Bytes) (more : Bool)
      → IsEnded l false
      → IsEnded (l ++ (body, more) ∷ []) (not more || false)
  IsEnded-append [] body true h = refl
  IsEnded-append [] body false h = (refl, refl)
  IsEnded-append ((_, true) ∷ l) body more h = IsEnded-append l body more h
  IsEnded-append ((_, false) ∷ l) body more h = absurd (cc h.1)

  send-Tracks :
      (m : Message) (log : List Message) (x : Exchange)
      → Tracks is_head log x
      → Tracks is_head (log ++ accept m (send is_head m x).0) (send is_head m x).1
  unfolding send add_body
  send-Tracks (response_start status headers) log x h = elim (Bool-cases x.response_started) [
    | inl e ↦ simp e (rw append-nil h)
    | inr e ↦ simp e (start-Tracks status headers log x e h)
  ]
  send-Tracks (response_body body more_body) log x h = elim (Bool-cases x.response_complete) [
    | inl e ↦ simp e (rw append-nil h)
    | inr e ↦ simp e (
        Tracks-append log _ _ (rw append-nil h.started)
          (sent_body-append is_head x.body_parts (bodies log) (or_default [] body)
            (or_default false more_body) h.body)
          (IsEnded-append (bodies log) (or_default [] body) (or_default false more_body)
            (rw e at h.complete)))
  ]
  send-Tracks other_type log x h =
      Tracks-append log _ _ (rw append-nil h.started) (rw append-nil h.body)
        (rw append-nil h.complete)
  send-Tracks untyped log x h = rw append-nil h

  pub run-Tracks :
      (t : Task) (log : List Message) (x : Exchange)
      → Tracks is_head log x
      → Tracks is_head (log ++ accepted is_head t x) (run is_head t x).1
  unfolding run accepted
  run-Tracks (receiving k) log x h = elim (Option-cases (receive x)) [
    | inl e ↦ rw (e, run, accepted) (rw append-nil h)
    | inr ((r, y), e) ↦
        rw (e, run, accepted) (run-Tracks (k r) log y (receive-Tracks log x r y e h))
  ]
  run-Tracks (sending m k) log x h =
      rw (← append_assoc log _ _)
        (run-Tracks (k (send is_head m x).0) _ (send is_head m x).1 (send-Tracks m log x h))
  run-Tracks finished log x h = rw append-nil h
  run-Tracks (raising e) log x h = rw append-nil h
