-- ===== src/WebSocket/Tests.antt =====
-- Runs of a socket whose native side has messages to give, and the theorem on messages at an input.
use httpxp.Codec.Utf8.{is_scalar, decode_utf8}
use httpxp.Codec.{decode}
use httpxp.Prelude.{
  List, Option, [], codes, drop, inl, list_beq, none, refl, some, ℕ, ◌+◌, ◌∷◌, ◌≡◌, nat_eq, list_eq,
}
use httpxp.Exceptions.Result.{ok, ◌>>=◌}
use httpxp.WebSocket.{
  Native, NativeMessage, WebSocket, WebSocketMessage, behind, close, close_owner, closed_native,
  content_of, disowned, each_message, is_textual, message_of, payload, receive, received, str, text,
}
use httpxp.WebSocket.RoundTrip.{payload-message_of}

abbrev hello : WebSocketMessage
hello = record { kind = codes "text"; content = text (codes "aé"); code = none }

payload-message_of_example :
    (payload (str (codes "aé")) >>= λ n. message_of (some n)) ≡ ok (some hello)
unfolding is_textual list_beq is_scalar
payload-message_of_example =
    payload-message_of (str (codes "aé")) hello refl (inl refl, (refl, (refl, tt)))

-- A world is the messages to come, how often the socket was closed and how often its client.
abbrev World : Type 0
World = List NativeMessage × ℕ × ℕ

abbrev head : List NativeMessage → Option NativeMessage
head [] = none
head (m ∷ _) = some m

abbrev native : Native World
native = record {
  send = λ _ w. (ok tt, w);
  receive = λ w. (ok (head w.0), (drop 1 w.0, w.1, w.2));
  close = λ _ _ w. (ok tt, (w.0, w.1 + 1, w.2));
  close_client = λ _ w. (ok tt, (w.0, w.1, w.2 + 1));
}

abbrev binary : NativeMessage
binary = (codes "binary", 1 ∷ [], none)

abbrev goodbye : NativeMessage
goodbye = (codes "close", [], some 1000)

-- The loop ends behind a close message, and leaves the message that follows.
until_close :
    each_message native (λ _ w. (ok tt, w)) 9 (binary ∷ goodbye ∷ binary ∷ [], 0, 0)
    ≡ some (ok tt, (binary ∷ [], 0, 0))
unfolding each_message receive received behind message_of content_of is_textual list_beq decode
    decode_utf8
until_close = refl

abbrev socket : WebSocket
socket = record { protocol = none; owner = some 4 }

-- A second closing leaves the client alone.
closed_twice : (close native 1000 [] (close native 1000 [] (socket, ([], 0, 0))).1).1.1 ≡ ([], 2, 1)
unfolding close closed_native close_owner disowned
closed_twice = refl
