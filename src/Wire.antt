-- ===== src/Wire.antt =====
-- protocol.go and message.go of server/server: the playback state and the messages.
use vchamber.Prelude.{ℕ, ℤ, Bool, List, Option, String, pos}

-- float64, by its bit pattern.
pub record Float64 : Type 0 where
  pub bits : ℕ

abbrev pub zero_float : Float64
zero_float = record { bits = 0x0 }

abbrev pub one_float : Float64
one_float = record { bits = 0x3ff0000000000000 }

abbrev pub two_float : Float64
two_float = record { bits = 0x4000000000000000 }

-- A reading of the monotonic clock and a time.Duration, in nanoseconds.
abbrev pub Time : Type 0
Time = ℕ

abbrev pub Duration : Type 0
Duration = ℕ

abbrev pub second : Duration
second = 1000000000

-- The machine's float64 arithmetic, and time.Duration.Seconds.
pub record FloatOps : Type 0 where
  pub add : Float64 → Float64 → Float64
  pub mul : Float64 → Float64 → Float64
  pub div : Float64 → Float64 → Float64
  pub max : Float64 → Float64 → Float64
  pub gt : Float64 → Float64 → Bool
  pub seconds : Duration → Float64

abbrev pub PlaybackStatus : Type 0
PlaybackStatus = ℤ

abbrev pub playback_status_stopped : PlaybackStatus
playback_status_stopped = pos 0

abbrev pub playback_status_playing : PlaybackStatus
playback_status_playing = pos 1

abbrev pub playback_status_paused : PlaybackStatus
playback_status_paused = pos 2

pub record PlaybackState : Type 0 where
  pub source : String
  pub status : PlaybackStatus
  pub position : Float64
  pub speed : Float64
  pub duration : Float64
  pub last_updated : Time

abbrev pub MessageType : Type 0
MessageType = ℤ

abbrev pub message_type_hello : MessageType
message_type_hello = pos 0

abbrev pub message_type_ping : MessageType
message_type_ping = pos 1

abbrev pub message_type_pong : MessageType
message_type_pong = pos 2

abbrev pub message_type_state_broadcast : MessageType
message_type_state_broadcast = pos 3

abbrev pub message_type_state_update : MessageType
message_type_state_update = pos 4

abbrev pub message_type_reserved : MessageType
message_type_reserved = pos 99

pub record HelloMessage : Type 0 where
  pub client_type : String

pub record PingMessage : Type 0 where
  pub timestamp : Float64

pub record PongMessage : Type 0 where
  pub timestamp : Float64
  pub svc_time : Float64

pub record PlaybackStateMessage : Type 0 where
  pub source : String
  pub status : PlaybackStatus
  pub position : Float64
  pub speed : Float64
  pub duration : Float64

-- State is a pointer, and may be nil.
pub record PlaybackStateUpdateMessage : Type 0 where
  pub state : Option PlaybackStateMessage
  pub rtt : Float64

-- What the interface value Payload may hold.
pub data Payload : Type 0 where
  hello : HelloMessage → Payload
  ping : PingMessage → Payload
  pong : PongMessage → Payload
  state_broadcast : PlaybackStateMessage → Payload
  state_update : PlaybackStateUpdateMessage → Payload
  reserved : List ℕ → Payload
  nil : Payload

pub record Message : Type 0 where
  pub sender : String
  pub received_at : Time
  pub type : MessageType
  pub payload : Payload
