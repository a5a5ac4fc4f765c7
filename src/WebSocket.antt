-- ===== src/WebSocket.antt =====
-- httpxp/_websocket.py: the messages, the synchronous `WebSocket` and the opening of a connection by a
-- client. The native side is a parameter.
pub mod Connect
mod RoundTrip
mod Tests
use httpxp.Prelude.{
  Bool, Bytes, Option, Text, codes, if◌then◌else◌, none, some, suc, zero, ℕ, ◌==◌, ◌||◌, nat_eq,
  list_eq,
}
use httpxp.Exceptions.{type_error}
use httpxp.Exceptions.Result
use httpxp.Exceptions.Result.{Result, ok, err}
use httpxp.Client.Exec.{M, lift, ◌>>=◌}
use httpxp.Codec.{decode, encode_utf8, utf8}

-- `str | bytes`
pub data Content : Type 0 where
  text : Text → Content
  raw : Bytes → Content

pub record WebSocketMessage : Type 0 where
  pub kind : Text
  pub content : Content
  pub code : Option ℕ

-- what `send` is given
pub data Sendable : Type 0 where
  str : Text → Sendable
  bytes : Bytes → Sendable
  message : WebSocketMessage → Sendable
  other_value : Sendable

abbrev pub NativeMessage : Type 0
NativeMessage = Text × Bytes × Option ℕ

pub is_textual : Text → Bool
is_textual kind = kind == codes "text" || kind == codes "close"

pub content_of : Text → Bytes → Result Content
content_of kind payload =
    if is_textual kind
    then Result.◌>>=◌ (decode utf8 payload) (λ s. ok (text s))
    else ok (raw payload)

-- `_message`
pub message_of : Option NativeMessage → Result (Option WebSocketMessage)
message_of none = ok none
message_of (some (kind, payload, code)) =
    Result.◌>>=◌ (content_of kind payload)
      λ c. ok (some (record { kind = kind; content = c; code = code }))

pub bytes_of : Content → Bytes
bytes_of (text s) = encode_utf8 s
bytes_of (raw b) = b

-- `_payload`
pub payload : Sendable → Result NativeMessage
payload (str s) = ok (codes "text", encode_utf8 s, none)
payload (bytes b) = ok (codes "binary", b, none)
payload (message m) = ok (m.kind, bytes_of m.content, m.code)
payload other_value = err type_error

-- the methods of the native socket, and the closing of a client
pub record Native (W : Type 0) : Type 0 where
  pub send : NativeMessage → M W (Unit {0})
  pub receive : M W (Option NativeMessage)
  pub close : ℕ → Text → M W (Unit {0})
  pub close_client : ℕ → M W (Unit {0})

pub record WebSocket : Type 0 where
  pub protocol : Option Text
  pub owner : Option ℕ

module _ {W : Type 0} (native : Native W) where
  pub send : Sendable → M W (Unit {0})
  send v = do n ← lift (payload v); native.send n

  send_text : Text → M W (Unit {0})
  send_text s = send (str s)

  send_bytes : Bytes → M W (Unit {0})
  send_bytes b = send (bytes b)

  -- `json.dumps` is a parameter
  send_json : {V : Type 0} → (V → Result Text) → V → M W (Unit {0})
  send_json dumps value = do s ← lift (dumps value); send (str s)

  ping : Bytes → M W (Unit {0})
  ping b = send (message (record { kind = codes "ping"; content = raw b; code = none }))

  pub receive : M W (Option WebSocketMessage)
  receive = do v ← native.receive; lift (message_of v)

  module _ (body : WebSocketMessage → M W (Unit {0})) where
    -- what follows the body of the loop
    behind :
        (W → Option (Result (Unit {0}) × W))
        → Text
        → Result (Unit {0}) × W
        → Option (Result (Unit {0}) × W)
    behind again kind (err e, w) = some (err e, w)
    behind again kind (ok _, w) = if kind == codes "close" then some (ok tt, w) else again w

    received :
        (W → Option (Result (Unit {0}) × W))
        → Result (Option WebSocketMessage) × W
        → Option (Result (Unit {0}) × W)
    received again (err e, w) = some (err e, w)
    received again (ok none, w) = some (ok tt, w)
    received again (ok (some m), w) = behind again m.kind (body m w)

    -- `for message in socket: body(message)`, of `fuel` messages at most
    pub each_message : ℕ → W → Option (Result (Unit {0}) × W)
    each_message zero w = none
    each_message (suc fuel) w = received (each_message fuel) (receive w)

  disowned : WebSocket → Result (Unit {0}) × W → Result (Unit {0}) × (WebSocket × W)
  disowned s (err e, w) = (err e, (s, w))
  disowned s (ok _, w) = (ok tt, (record s { owner = none }, w))

  close_owner : WebSocket → Option ℕ → W → Result (Unit {0}) × (WebSocket × W)
  close_owner s none w = (ok tt, (s, w))
  close_owner s (some client) w = disowned s (native.close_client client w)

  closed_native : WebSocket → Result (Unit {0}) × W → Result (Unit {0}) × (WebSocket × W)
  closed_native s (err e, w) = (err e, (s, w))
  closed_native s (ok _, w) = close_owner s s.owner w

  pub close : ℕ → Text → M (WebSocket × W) (Unit {0})
  close code reason (s, w) = closed_native s (native.close code reason w)
