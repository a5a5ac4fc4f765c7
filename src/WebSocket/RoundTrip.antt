-- ===== src/WebSocket/RoundTrip.antt =====
-- A message that is sent is read back by a peer that receives its payload.
use httpxp.Prelude.{
  ==_iff, All, Bool-cases, Text, arith, codes, inl, inr, none, refl, some, true, ◌==◌, ◌↔◌, ◌≡◌,
  ◌⊎◌, nat_eq, list_eq,
}
use httpxp.Exceptions.Result.{ok, ◌>>=◌}
use httpxp.Codec.{decode}
use httpxp.Codec.Utf8.RoundTrip.{decode_utf8-encode_utf8, IsScalar}
use httpxp.WebSocket.{
  Content, Sendable, WebSocketMessage, bytes, bytes_of, content_of, is_textual, message, message_of,
  other_value, payload, raw, str, text,
}

abbrev pub IsText : Text → Type 0
IsText kind = (kind ≡ codes "text") ⊎ (kind ≡ codes "close")

-- Text, without surrogates, for the kinds "text" and "close", and bytes for the other kinds.
abbrev pub Fits : Text → Content → Type 0
Fits kind (text s) = IsText kind × All IsScalar s
Fits kind (raw _) = IsText kind → ⊥

is_textual_iff : (kind : Text) → (is_textual kind ≡ true) ↔ IsText kind
unfolding is_textual
is_textual_iff kind = (
  λ h. elim (Bool-cases (kind == codes "text")) [
    | inl e ↦ inl ((==_iff kind (codes "text")).0 e)
    | inr e ↦ inr ((==_iff kind (codes "close")).0 (ground arith))
  ],
  λ h. elim h [
    | inl e ↦ rw ((==_iff kind (codes "text")).1 e) refl
    | inr e ↦ rw ((==_iff kind (codes "close")).1 e) (ground arith)
  ],
)

-- the message that is sent for a value
abbrev pub StandsFor : Sendable → WebSocketMessage → Type 0
StandsFor (str s) m = m ≡ record { kind = codes "text"; content = text s; code = none }
StandsFor (bytes b) m = m ≡ record { kind = codes "binary"; content = raw b; code = none }
StandsFor (message n) m = m ≡ n
StandsFor other_value m = ⊥

content_of-bytes_of :
    (kind : Text) (c : Content) → Fits kind c → content_of kind (bytes_of c) ≡ ok c
unfolding content_of bytes_of decode
content_of-bytes_of kind (text s) h =
    rw ((is_textual_iff kind).1 h.0) (rw (decode_utf8-encode_utf8 s h.1, decode) refl)
content_of-bytes_of kind (raw b) h = elim (Bool-cases (is_textual kind)) [
  | inl t ↦ absurd (h ((is_textual_iff kind).0 t))
  | inr t ↦ rw t refl
]

message-payload :
    (m : WebSocketMessage)
    → Fits m.kind m.content
    → (payload (message m) >>= λ n. message_of (some n)) ≡ ok (some m)
unfolding payload message_of
message-payload m h = rw (content_of-bytes_of m.kind m.content h) refl

-- A value is sent as a message; if the content of the message is text without surrogates for the kinds
-- "text" and "close" and bytes for the others, then what is read of the payload is that message.
pub payload-message_of :
    (v : Sendable) (m : WebSocketMessage)
    → StandsFor v m
    → Fits m.kind m.content
    → (payload v >>= λ n. message_of (some n)) ≡ ok (some m)
unfolding payload bytes_of
payload-message_of (str s) m e h = rw e (message-payload _ (rw e at h))
payload-message_of (bytes b) m e h = rw e (message-payload _ (rw e at h))
payload-message_of (message n) m e h = rw e (message-payload n (rw e at h))
payload-message_of other_value m e h = absurd e
