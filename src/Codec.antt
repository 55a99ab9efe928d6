-- ===== src/Codec.antt =====
-- Serialise and Deserialise of server/server/message.go. The package encoding/json is a parameter.
pub mod Types
pub mod RoundTrip
use vchamber.Prelude.{ℕ, ◌≡◌, Bool, List, Option, none, some, String, if◌then◌else◌, int_eq}
use vchamber.Wire.{
  Time, Message, MessageType, Payload, hello, ping, pong, state_broadcast, state_update, reserved,
  nil, HelloMessage, PingMessage, PongMessage, PlaybackStateMessage, PlaybackStateUpdateMessage,
  message_type_hello, message_type_ping, message_type_pong, message_type_state_broadcast,
  message_type_state_update, message_type_reserved,
}

pub record ReceivedMessage : Type 0 where
  pub type : MessageType
  pub payload : List ℕ

-- json.Marshal of a message, and json.Unmarshal into a zero value of each type: what it leaves there,
-- and its error.
pub record Json : Type 0 where
  pub marshal : Message → List ℕ × Option String
  pub received : List ℕ → ReceivedMessage × Option String
  pub as_hello : List ℕ → HelloMessage × Option String
  pub as_ping : List ℕ → PingMessage × Option String
  pub as_pong : List ℕ → PongMessage × Option String
  pub as_state_broadcast : List ℕ → PlaybackStateMessage × Option String
  pub as_state_update : List ℕ → PlaybackStateUpdateMessage × Option String

abbrev pub serialise : Json → Message → List ℕ × Option String
serialise json m = json.marshal m

-- var msg Message
abbrev pub zero_message : Message
zero_message = record { sender = ""; received_at = 0; type = message_type_hello; payload = nil }

-- m.Payload = &p
with_payload : {P : Type 0} → (P → Payload) → P × Option String → Message → Message × Option String
with_payload f (p, err) m = (record m { payload = f p }, err)

decode_payload : Json → List ℕ → Message → Message × Option String
unfolding with_payload
decode_payload json raw m =
    if int_eq m.type message_type_hello
    then with_payload hello (json.as_hello raw) m
    else if int_eq m.type message_type_ping
    then with_payload ping (json.as_ping raw) m
    else if int_eq m.type message_type_pong
    then with_payload pong (json.as_pong raw) m
    else if int_eq m.type message_type_state_broadcast
    then with_payload state_broadcast (json.as_state_broadcast raw) m
    else if int_eq m.type message_type_state_update
    then with_payload state_update (json.as_state_update raw) m
    else if int_eq m.type message_type_reserved
    then (record m { payload = reserved raw }, none)
    else (m, none)

decode_received : Json → Time → ReceivedMessage × Option String → Message → Message × Option String
unfolding decode_payload
decode_received json now (rm, some e) m = (m, some e)
decode_received json now (rm, none) m =
    decode_payload json rm.payload (record m { received_at = now; type = rm.type })

-- The message as it is left, and the error.
unfoldable pub deserialise : Json → Time → List ℕ → Message → Message × Option String
unfolding decode_received
deserialise json now buf m = decode_received json now (json.received buf) m
