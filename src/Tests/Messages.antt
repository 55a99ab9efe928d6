-- ===== src/Tests/Messages.antt =====
-- Frames that a client sends, and what is made of them.
use vchamber.Prelude.{◌≡◌, refl, inl, true, false, none, [], ◌∷◌, Chan, make_chan, Safely}
use vchamber.Wire.{
  reserved, nil, message_type_reserved, zero_float, one_float, message_type_ping,
  message_type_state_update, playback_status_stopped,
}
use vchamber.Codec.{Json, zero_message, deserialise}
use vchamber.Codec.Types.{IsTyped, IsUnknown, deserialise-IsTyped}
use vchamber.Playback.Laws.{whole_ops}
use vchamber.Conn.{ClientConn, client_state_guest, on_queue, sender_turn, handle_ws_client_send}
use vchamber.Conn.Typed.{Sent, sender_turn-Sent}
use vchamber.Receive.{read_error, reader_turn, handle_ws_client_recv}
use vchamber.Receive.Soundness.{Received, reader_turn-Received}
use vchamber.Room.{ClientRef}
use vchamber.Client.{connect, connected, first_message, new_client}
use vchamber.Client.Connecting.{connect_accepts}
use vchamber.Handshake.Access.{greeted}

-- An empty frame is a ping, any other an update without a state.
abbrev pub codec : Json
codec = record {
  marshal = λ m. ([], none);
  received = λ b. elim b [
    | [] ↦ (record { type = message_type_ping; payload = [] }, none)
    | x ∷ xs ↦ (record { type = message_type_state_update; payload = xs }, none)
  ];
  as_hello = λ b. (record { client_type = "" }, none);
  as_ping = λ b. (record { timestamp = one_float }, none);
  as_pong = λ b. (record { timestamp = zero_float; svc_time = zero_float }, none);
  as_state_broadcast = λ b. (
    record {
      source = "";
      status = playback_status_stopped;
      position = zero_float;
      speed = zero_float;
      duration = zero_float;
    },
    none,
  );
  as_state_update = λ b. (record { state = none; rtt = zero_float }, none);
}

deserialise-IsTyped_example :
    IsTyped (deserialise codec 3 [] zero_message).0
    × ((deserialise codec 3 [] zero_message).0.received_at ≡ 3)
    × ((deserialise codec 3 [] zero_message).0.sender ≡ "")
    × ((deserialise codec 3 [] zero_message).0.type ≡ message_type_ping)
    × (message_type_ping ≡ message_type_reserved
        → (deserialise codec 3 [] zero_message).0.payload ≡ reserved [])
    × (IsUnknown message_type_ping → (deserialise codec 3 [] zero_message).0.payload ≡ nil)
unfolding deserialise
deserialise-IsTyped_example = deserialise-IsTyped codec 3 [] zero_message refl

abbrev idle : ClientConn
idle = record (greeted "g" client_state_guest) { send_queue = make_chan 32 }

-- The room's deqClient.
abbrev deq_client : Chan ClientRef
deq_client = make_chan 0

-- What is read ends the goroutine, and its request is received.
reader_turn-Received_example :
    Safely (reader_turn codec 3 read_error false deq_client idle) (Received idle)
    × (reader_turn codec 3 read_error true deq_client idle
        ≡ handle_ws_client_recv codec 3 read_error idle)
reader_turn-Received_example =
    reader_turn-Received codec 3 idle refl tt read_error false deq_client refl

-- A ping as Deserialise leaves it.
abbrev pinging : ClientConn
pinging = record idle {
  recv_queue = record {
    buffer = (deserialise codec 3 [] zero_message).0 ∷ [];
    capacity = 32;
    closed = false;
  };
}

-- One whose queue was closed with a message in it.
abbrev leaving : ClientConn
leaving = record idle {
  send_queue = record {
    buffer = (deserialise codec 3 [] zero_message).0 ∷ [];
    capacity = 32;
    closed = true;
  };
}

sender_turn-Sent_example :
    Safely (sender_turn whole_ops 5 true on_queue false deq_client leaving) (Sent leaving)
    × (sender_turn whole_ops 5 true on_queue true deq_client leaving
        ≡ handle_ws_client_send whole_ops 5 true on_queue leaving)
unfolding deserialise
sender_turn-Sent_example =
    sender_turn-Sent whole_ops 5 true on_queue false deq_client leaving
      ((deserialise-IsTyped codec 3 [] zero_message refl).0, tt) refl

connect_accepts_example : connect codec 3 4 (first_message []) ≡ connected (new_client 4)
unfolding deserialise
connect_accepts_example = connect_accepts codec 3 4 [] (inl refl)
