-- ===== src/Codec/RoundTrip.antt =====
-- From Serialise to Deserialise.
use vchamber.Prelude.{ℤ, pos, negsuc, ◌<◌, ◌^◌, subst, sym, ℕ, ◌≡◌, List, Option, none, some, arith}
use vchamber.Wire.{
  Float64, Time, Message, MessageType, Payload, hello, ping, pong, state_broadcast, state_update,
  reserved, nil, HelloMessage, PingMessage, PongMessage, PlaybackStateMessage,
  PlaybackStateUpdateMessage, message_type_hello, message_type_ping, message_type_pong,
  message_type_state_broadcast, message_type_state_update,
}
use vchamber.Codec.{Json, serialise, zero_message, deserialise, decode_payload, decode_received}

-- A Go int, of 64 bits.
abbrev pub IsInt64 : ℤ → Type 0
IsInt64 (pos n) = n < 2 ^ 63
IsInt64 (negsuc n) = n < 2 ^ 63

-- What encoding/json can write and read back: finite floats, and ints of 64 bits. Of a raw payload,
-- which need not be JSON, and of no payload nothing is asked.
module _ (IsFinite : Float64 → Type 0) where
  abbrev pub StateWritable : PlaybackStateMessage → Type 0
  StateWritable s = IsInt64 s.status × IsFinite s.position × IsFinite s.speed × IsFinite s.duration

  abbrev pub StateOptionWritable : Option PlaybackStateMessage → Type 0
  StateOptionWritable none = Unit
  StateOptionWritable (some s) = StateWritable s

  abbrev pub PayloadWritable : Payload → Type 0
  PayloadWritable (hello p) = Unit
  PayloadWritable (ping p) = IsFinite p.timestamp
  PayloadWritable (pong p) = IsFinite p.timestamp × IsFinite p.svc_time
  PayloadWritable (state_broadcast p) = StateWritable p
  PayloadWritable (state_update p) = StateOptionWritable p.state × IsFinite p.rtt
  PayloadWritable (reserved raw) = ⊥
  PayloadWritable nil = ⊥

  -- What encoding/json promises: such a message is written as an object with its type and its
  -- payload, which are read back; and each type of payload is read back as it was.
  pub record JsonLaws (json : Json) : Type 0 where
    pub written : Payload → List ℕ
    pub marshal-received :
        (m : Message)
        → IsInt64 m.type
        → PayloadWritable m.payload
        → ((json.marshal m).1 ≡ none)
          × (json.received (json.marshal m).0
              ≡ (record { type = m.type; payload = written m.payload }, none))
    pub as_hello-written : (p : HelloMessage) → json.as_hello (written (hello p)) ≡ (p, none)
    pub as_ping-written :
        (p : PingMessage) → PayloadWritable (ping p) → json.as_ping (written (ping p)) ≡ (p, none)
    pub as_pong-written :
        (p : PongMessage) → PayloadWritable (pong p) → json.as_pong (written (pong p)) ≡ (p, none)
    pub as_state_broadcast-written :
        (p : PlaybackStateMessage)
        → PayloadWritable (state_broadcast p)
        → json.as_state_broadcast (written (state_broadcast p)) ≡ (p, none)
    pub as_state_update-written :
        (p : PlaybackStateUpdateMessage)
        → PayloadWritable (state_update p)
        → json.as_state_update (written (state_update p)) ≡ (p, none)

-- The type of a message is that of its payload, one of the five that are not raw.
abbrev pub Fits : MessageType → Payload → Type 0
Fits t (hello p) = t ≡ message_type_hello
Fits t (ping p) = t ≡ message_type_ping
Fits t (pong p) = t ≡ message_type_pong
Fits t (state_broadcast p) = t ≡ message_type_state_broadcast
Fits t (state_update p) = t ≡ message_type_state_update
Fits t (reserved raw) = ⊥
Fits t nil = ⊥

Fits-IsInt64 : (t : MessageType) (p : Payload) → Fits t p → IsInt64 t
Fits-IsInt64 t (hello p) e = subst IsInt64 (sym e) (omega arith)
Fits-IsInt64 t (ping p) e = subst IsInt64 (sym e) (omega arith)
Fits-IsInt64 t (pong p) e = subst IsInt64 (sym e) (omega arith)
Fits-IsInt64 t (state_broadcast p) e = subst IsInt64 (sym e) (omega arith)
Fits-IsInt64 t (state_update p) e = subst IsInt64 (sym e) (omega arith)
Fits-IsInt64 t (reserved raw) e = absurd e
Fits-IsInt64 t nil e = absurd e

-- The message as it arrives.
abbrev pub arrived : Time → Message → Message
arrived now m = record { sender = ""; received_at = now; type = m.type; payload = m.payload }

module _ (IsFinite : Float64 → Type 0) (json : Json) (laws : JsonLaws IsFinite json)
    (now : Time) where
  decoded :
      (t : MessageType) (p : Payload)
      → Fits t p
      → PayloadWritable IsFinite p
      → decode_payload json
          (laws.written p)
          (record { sender = ""; received_at = now; type = t; payload = nil })
        ≡ (record { sender = ""; received_at = now; type = t; payload = p }, none)
  unfolding decode_payload
  decoded t (hello p) e f = ground (arith, laws.as_hello-written p)
  decoded t (ping p) e f = ground (arith, laws.as_ping-written p f)
  decoded t (pong p) e f = ground (arith, laws.as_pong-written p f)
  decoded t (state_broadcast p) e f = ground (arith, laws.as_state_broadcast-written p f)
  decoded t (state_update p) e f = ground (arith, laws.as_state_update-written p f)
  decoded t (reserved raw) e f = absurd e
  decoded t nil e f = absurd e

  -- A hello, a ping, a pong, a state broadcast or a state update, whose type is that of its payload,
  -- with finite floats and a status of 64 bits, is serialised without an error, and Deserialise reads
  -- it back as it was, but for the sender, which is empty, and the time of receipt, which is that of
  -- the reading; if encoding/json reads back what it writes of such messages.
  pub deserialise-serialise :
      (m : Message)
      → Fits m.type m.payload
      → PayloadWritable IsFinite m.payload
      → ((serialise json m).1 ≡ none)
        × (deserialise json now (serialise json m).0 zero_message ≡ (arrived now m, none))
  unfolding deserialise decode_received
  deserialise-serialise m e f =
      let (w, r) = laws.marshal-received m (Fits-IsInt64 m.type m.payload e) f in
      (w, rw r (decoded m.type m.payload e f))
