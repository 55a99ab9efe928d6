-- ===== src/Tests/Encodings.antt =====
-- A concrete encoding in place of encoding/json, and messages that it carries.
use vchamber.Tests.Texts.{codes, read_text, read_text-codes}
use Prim.Native.String.{String}
use vchamber.Prelude.{
  arith, ℕ, ℤ, zero, suc, pos, negsuc, ◌≡◌, refl, ap, List, [], ◌∷◌, Option, none, some,
}
use vchamber.Wire.{
  Float64, Message, Payload, hello, ping, pong, state_broadcast, state_update, reserved, nil,
  HelloMessage, PingMessage, PongMessage, PlaybackStateMessage, PlaybackStateUpdateMessage,
  zero_float, one_float, two_float, message_type_state_update, playback_status_playing,
}
use vchamber.Codec.{Json, ReceivedMessage, serialise, zero_message, deserialise}
use vchamber.Codec.RoundTrip.{JsonLaws, arrived, deserialise-serialise}

number : ℤ → List ℕ → List ℕ
number (pos n) l = 0 ∷ n ∷ l
number (negsuc n) l = 1 ∷ n ∷ l

signed : ℕ → ℕ → ℤ
signed zero n = pos n
signed (suc s) n = negsuc n

write_state : PlaybackStateMessage → List ℕ
unfolding number
write_state s = s.position.bits ∷ s.speed.bits ∷ s.duration.bits ∷ number s.status (codes s.source)

write_option : Option PlaybackStateMessage → List ℕ
write_option none = []
write_option (some s) = write_state s

write : Payload → List ℕ
write (hello p) = codes p.client_type
write (ping p) = p.timestamp.bits ∷ []
write (pong p) = p.timestamp.bits ∷ p.svc_time.bits ∷ []
write (state_broadcast p) = write_state p
write (state_update p) = p.rtt.bits ∷ write_option p.state
write (reserved raw) = raw
write nil = []

read_hello : List ℕ → HelloMessage × Option String
read_hello l = (record { client_type = read_text l }, none)

read_ping : List ℕ → PingMessage × Option String
read_ping [] = (record { timestamp = zero_float }, some "end of input")
read_ping (n ∷ l) = (record { timestamp = record { bits = n } }, none)

read_pong : List ℕ → PongMessage × Option String
read_pong (n ∷ k ∷ l) =
    (record { timestamp = record { bits = n }; svc_time = record { bits = k } }, none)
read_pong _ = (record { timestamp = zero_float; svc_time = zero_float }, some "end of input")

read_state : List ℕ → PlaybackStateMessage × Option String
read_state (p ∷ v ∷ d ∷ s ∷ n ∷ l) = (
  record {
    source = read_text l;
    status = signed s n;
    position = record { bits = p };
    speed = record { bits = v };
    duration = record { bits = d };
  },
  none,
)
read_state _ = (
  record {
    source = "";
    status = pos 0;
    position = zero_float;
    speed = zero_float;
    duration = zero_float;
  },
  some "end of input",
)

read_update : List ℕ → PlaybackStateUpdateMessage × Option String
read_update (r ∷ []) = (record { state = none; rtt = record { bits = r } }, none)
read_update (r ∷ b ∷ l) = (
  record { state = some (read_state (b ∷ l)).0; rtt = record { bits = r } },
  (read_state (b ∷ l)).1,
)
read_update _ = (record { state = none; rtt = zero_float }, some "end of input")

read_received : List ℕ → ReceivedMessage × Option String
read_received (s ∷ n ∷ l) = (record { type = signed s n; payload = l }, none)
read_received _ = (record { type = pos 0; payload = [] }, some "end of input")

pub test_json : Json
test_json = record {
  marshal = λ m. (number m.type (write m.payload), none);
  received = read_received;
  as_hello = read_hello;
  as_ping = read_ping;
  as_pong = read_pong;
  as_state_broadcast = read_state;
  as_state_update = read_update;
}

abbrev pub AnyFloat : Float64 → Type 0
AnyFloat f = Unit

read_received-number :
    (z : ℤ) (l : List ℕ) → read_received (number z l) ≡ (record { type = z; payload = l }, none)
unfolding read_received number signed
read_received-number (pos n) l = refl
read_received-number (negsuc n) l = refl

read_state-write :
    (p v d : ℕ) (z : ℤ) (s : String)
    → read_state (p ∷ v ∷ d ∷ number z (codes s)) ≡ (
      record {
        source = s;
        status = z;
        position = record { bits = p };
        speed = record { bits = v };
        duration = record { bits = d };
      },
      none,
    )
unfolding read_state number signed
read_state-write p v d (pos n) s = rw (read_text-codes s) refl
read_state-write p v d (negsuc n) s = rw (read_text-codes s) refl

read_update-write :
    (o : Option PlaybackStateMessage) (r : Float64)
    → read_update (r.bits ∷ write_option o) ≡ (record { state = o; rtt = r }, none)
unfolding read_update write_option write_state
read_update-write none r = refl
read_update-write (some s) r =
    ap (λ (t : PlaybackStateMessage × Option String). (record { state = some t.0; rtt = r }, t.1))
      (read_state-write s.position.bits s.speed.bits s.duration.bits s.status s.source)

pub test_json-JsonLaws : JsonLaws AnyFloat test_json
unfolding test_json write write_state read_hello read_ping read_pong
test_json-JsonLaws = record {
  written = write;
  marshal-received = λ m i f. (refl, read_received-number m.type (write m.payload));
  as_hello-written = λ p. rw (read_text-codes p.client_type) refl;
  as_ping-written = λ p f. refl;
  as_pong-written = λ p f. refl;
  as_state_broadcast-written =
      λ p f. read_state-write p.position.bits p.speed.bits p.duration.bits p.status p.source;
  as_state_update-written = λ p f. read_update-write p.state p.rtt;
}

abbrev pub film : PlaybackStateMessage
film = record {
  source = "film.mp4";
  status = playback_status_playing;
  position = one_float;
  speed = one_float;
  duration = two_float;
}

abbrev pub film_update : Message
film_update = record {
  sender = "m";
  received_at = 3;
  type = message_type_state_update;
  payload = state_update (record { state = some film; rtt = zero_float });
}

deserialise-serialise_example :
    ((serialise test_json film_update).1 ≡ none)
    × (deserialise test_json 9 (serialise test_json film_update).0 zero_message
        ≡ (arrived 9 film_update, none))
deserialise-serialise_example =
    deserialise-serialise AnyFloat test_json test_json-JsonLaws 9 film_update refl
      ((omega arith, tt, tt, tt), tt)
