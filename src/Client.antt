-- ===== src/Client.antt =====
-- The headless client of server/server/client.go. The dialling of the websocket and whether a write
-- succeeds are arguments.
pub mod Connecting
pub mod Heartbeat
pub mod Joining
use vchamber.Prelude.{
  ℕ, ◌*◌, Bool, true, false, List, Option, none, some, String, if◌then◌else◌, int_eq, Chan,
  make_chan, recv, close_chan, Outcome, ok, ◌>>=◌,
}
use vchamber.Wire.{
  Float64, zero_float, Time, Duration, second, Message, message_type_hello, message_type_ping, ping,
  PlaybackState, playback_status_stopped,
}
use vchamber.Conn.{Turn, again, returned, Frame, text_frame, close_frame, no_frame}
use vchamber.Codec.{Json, zero_message, deserialise}

abbrev pub heartbeat_period : Duration
heartbeat_period = 1 * second

pub record Client : Type 0 where
  pub conn_closed : Bool
  pub state : PlaybackState
  pub latency : Duration
  pub stop : Chan Bool
  pub stopped : Chan Bool

-- What happens up to the first message: a URL or a dialling that fails, a read that fails, a message.
pub data Dialled : Type 0 where
  no_url : String → Dialled
  no_connection : String → Dialled
  no_message : String → Dialled
  first_message : List ℕ → Dialled

-- What Connect comes to: a client, or an error, before which a close frame may have been sent.
pub data Connected : Type 0 where
  connected : Client → Connected
  refused : String → Connected
  turned_away : String → Connected

abbrev pub new_client : Time → Client
new_client now = record {
  conn_closed = false;
  state = record {
    source = "";
    status = playback_status_stopped;
    position = zero_float;
    speed = zero_float;
    duration = zero_float;
    last_updated = now;
  };
  latency = 0;
  stop = make_chan 0;
  stopped = make_chan 0;
}

check_hello : Time → Message × Option String → Connected
check_hello now (m, none) = connected (new_client now)
check_hello now (m, some e) =
    if int_eq m.type message_type_hello then connected (new_client now) else turned_away e

-- `got` and `now` are the readings of the clock in Deserialise and after it.
unfoldable pub connect : Json → Time → Time → Dialled → Connected
unfolding check_hello
connect json got now (no_url e) = refused e
connect json got now (no_connection e) = refused e
connect json got now (no_message e) = refused e
connect json got now (first_message buf) = check_hello now (deserialise json got buf zero_message)

-- The cases of the select: the ticker, and Stop.
pub data Beat : Type 0 where
  on_ticker on_stop : Beat

-- The deferred calls.
finish : Client → Frame → Outcome (Turn (Client × Frame))
finish c f = do
  s ← close_chan c.stopped
  ok (returned (record c { stopped = s; conn_closed = true }, f))

-- A ping with the time of the clock in seconds.
abbrev pub heartbeat : Float64 → Message
heartbeat seconds = record {
  sender = "";
  received_at = 0;
  type = message_type_ping;
  payload = ping (record { timestamp = seconds });
}

-- One round of ClientSendHeartbeat; SendMessage writes the message, and `written` says if it can.
unfoldable pub client_send_heartbeat :
    Float64 → Bool → Beat → Client → Outcome (Turn (Client × Frame))
unfolding finish
client_send_heartbeat seconds written on_ticker c =
    if written
    then ok (again (c, text_frame (heartbeat seconds)))
    else finish c (text_frame (heartbeat seconds))
client_send_heartbeat seconds written on_stop c = do (_, q) ← recv c.stop; finish c close_frame

-- ClientHandleRecv: it waits for Stop, and closes the connection.
client_handle_recv : Client → Outcome (Turn Client)
client_handle_recv c = do (_, q) ← recv c.stop; ok (returned (record c { conn_closed = true }))
