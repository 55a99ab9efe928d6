-- ===== src/Codec/Types.antt =====
-- The type of a message tells what its payload is.
use vchamber.Prelude.{refl, ℕ, ◌≡◌, ◌≢◌, Option, none, some, List, String, int_eq_iff, arith}
use vchamber.Wire.{
  Time, Message, MessageType, message_type_reserved, reserved, hello, ping, pong, state_broadcast,
  state_update, HelloMessage, PingMessage, PongMessage, PlaybackStateMessage,
  PlaybackStateUpdateMessage, message_type_hello, message_type_ping, message_type_pong,
  message_type_state_broadcast, message_type_state_update,
}
use vchamber.Codec.{Json, ReceivedMessage, deserialise, decode_received, decode_payload}

-- A type assertion on the payload that goes by the type of the message succeeds.
pub record IsTyped (m : Message) : Type 0 where
  pub as_hello : m.type ≡ message_type_hello → (p : HelloMessage) × (m.payload ≡ hello p)
  pub as_ping : m.type ≡ message_type_ping → (p : PingMessage) × (m.payload ≡ ping p)
  pub as_pong : m.type ≡ message_type_pong → (p : PongMessage) × (m.payload ≡ pong p)
  pub as_state_broadcast :
      m.type ≡ message_type_state_broadcast
      → (p : PlaybackStateMessage) × (m.payload ≡ state_broadcast p)
  pub as_state_update :
      m.type ≡ message_type_state_update
      → (p : PlaybackStateUpdateMessage) × (m.payload ≡ state_update p)

-- None of the message types.
abbrev pub IsUnknown : MessageType → Type 0
IsUnknown t =
    (t ≢ message_type_hello)
    × (t ≢ message_type_ping)
    × (t ≢ message_type_pong)
    × (t ≢ message_type_state_broadcast)
    × (t ≢ message_type_state_update)
    × (t ≢ message_type_reserved)

module _ (json : Json) where
  reserved_kept :
      (raw : List ℕ) (m : Message)
      → (m.type ≡ message_type_reserved → (decode_payload json raw m).0.payload ≡ reserved raw)
        × (IsUnknown m.type → (decode_payload json raw m).0.payload ≡ m.payload)
  unfolding decode_payload
  reserved_kept raw m = (
    λ e. rw e refl,
    λ (a, b, c, d, e, f). ground (
      arith,
      int_eq_iff m.type message_type_hello,
      int_eq_iff m.type message_type_ping,
      int_eq_iff m.type message_type_pong,
      int_eq_iff m.type message_type_state_broadcast,
      int_eq_iff m.type message_type_state_update,
      int_eq_iff m.type message_type_reserved,
    ),
  )

  decode_payload-IsTyped : (raw : List ℕ) (m : Message) → IsTyped (decode_payload json raw m).0
  unfolding decode_payload
  decode_payload-IsTyped raw m = record {
    as_hello = λ e. ((json.as_hello raw).0, ground (arith, int_eq_iff m.type message_type_hello));
    as_ping = λ e. ((json.as_ping raw).0, ground (arith, int_eq_iff m.type message_type_ping));
    as_pong = λ e. ((json.as_pong raw).0, ground (arith, int_eq_iff m.type message_type_pong));
    as_state_broadcast = λ e. (
      (json.as_state_broadcast raw).0,
      ground (arith, int_eq_iff m.type message_type_state_broadcast),
    );
    as_state_update = λ e.
        ((json.as_state_update raw).0, ground (arith, int_eq_iff m.type message_type_state_update));
  }

  kept :
      (raw : List ℕ) (n : Message)
      → ((decode_payload json raw n).0.received_at ≡ n.received_at)
        × ((decode_payload json raw n).0.sender ≡ n.sender)
        × ((decode_payload json raw n).0.type ≡ n.type)
  unfolding decode_payload
  kept raw n = ground arith

  decode_received-IsTyped :
      (now : Time) (r : ReceivedMessage × Option String) (m : Message)
      → (decode_received json now r m).1 ≡ none
      → IsTyped (decode_received json now r m).0
        × ((decode_received json now r m).0.received_at ≡ now)
        × ((decode_received json now r m).0.sender ≡ m.sender)
        × ((decode_received json now r m).0.type ≡ r.0.type)
        × (r.0.type ≡ message_type_reserved
            → (decode_received json now r m).0.payload ≡ reserved r.0.payload)
        × (IsUnknown r.0.type → (decode_received json now r m).0.payload ≡ m.payload)
  unfolding decode_received
  decode_received-IsTyped now (rm, some e) m h = cc
  decode_received-IsTyped now (rm, none) m h =
      let m' = record m { received_at = now; type = rm.type } in
      let (at, from, type) = kept rm.payload m' in
      (
        decode_payload-IsTyped rm.payload m',
        at,
        from,
        type,
        (reserved_kept rm.payload m').0,
        (reserved_kept rm.payload m').1,
      )

  -- If Deserialise succeeds, then the payload of the message is what its type tells, for whatever
  -- was received: one of the five structures for the types that have one, the raw bytes that were
  -- received for the reserved type, and for an unknown type the payload of before; the message has
  -- the type that was received, the time of its receipt, and the sender of before.
  pub deserialise-IsTyped :
      (now : Time) (buf : List ℕ) (m : Message)
      → (deserialise json now buf m).1 ≡ none
      → IsTyped (deserialise json now buf m).0
        × ((deserialise json now buf m).0.received_at ≡ now)
        × ((deserialise json now buf m).0.sender ≡ m.sender)
        × ((deserialise json now buf m).0.type ≡ (json.received buf).0.type)
        × ((json.received buf).0.type ≡ message_type_reserved
            → (deserialise json now buf m).0.payload ≡ reserved (json.received buf).0.payload)
        × (IsUnknown (json.received buf).0.type
            → (deserialise json now buf m).0.payload ≡ m.payload)
  unfolding deserialise
  deserialise-IsTyped now buf m h = decode_received-IsTyped now (json.received buf) m h

  undecoded :
      (now : Time) (r : ReceivedMessage × Option String) (m : Message) (e : String)
      → r.1 ≡ some e
      → decode_received json now r m ≡ (m, some e)
  unfolding decode_received
  undecoded now (rm, some d) m e h = ground (arith, h)
  undecoded now (rm, none) m e h = cc

  -- What is no message at all leaves the message as it was.
  pub deserialise_undecoded :
      (now : Time) (buf : List ℕ) (m : Message) (e : String)
      → (json.received buf).1 ≡ some e
      → deserialise json now buf m ≡ (m, some e)
  unfolding deserialise
  deserialise_undecoded now buf m e h = undecoded now (json.received buf) m e h
