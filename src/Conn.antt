-- ===== src/Conn.antt =====
-- ClientConn of server/server/wsserver.go, and a turn of each of its three goroutines. The
-- websocket connection is outside: what is read from it and whether a write succeeds are arguments.
pub mod Authority
pub mod Pong
pub mod Typed
pub mod Effects
pub mod Sending
pub mod Order
use vchamber.Prelude.{
  ℕ, ◌≡◌, Bool, true, false, List, Option, none, some, String, if◌then◌else◌, int_eq, Chan,
  make_chan, send, recv, offer, Outcome, ok, blocked, panic, failed_assertion, ◌>>=◌, not,
}
use vchamber.Wire.{
  FloatOps, zero_float, Time, Message, Payload, ping, pong, PingMessage, PongMessage,
  message_type_ping, message_type_pong, message_type_state_update,
}
use vchamber.Playback.{since}

pub data ClientState : Type 0 where
  client_state_unauthorised client_state_guest client_state_master : ClientState

abbrev pub is_master : ClientState → Bool
is_master client_state_master = true
is_master _ = false

pub record ClientConn : Type 0 where
  pub id : String
  pub recv_queue : Chan Message
  pub send_queue : Chan Message
  pub closing : Chan Bool
  pub state : ClientState

abbrev pub client_send_queue_size : ℕ
client_send_queue_size = 32

abbrev pub client_recv_queue_size : ℕ
client_recv_queue_size = 32

unfoldable pub new_client_conn : String → ClientState → ClientConn
new_client_conn id state = record {
  id = id;
  recv_queue = make_chan client_recv_queue_size;
  send_queue = make_chan client_send_queue_size;
  closing = make_chan 0;
  state = state;
}

-- Which case a select takes: the queue, or `<-c.closing`.
pub data Ready : Type 0 where
  on_queue on_closing : Ready

-- A goroutine goes round its loop again, or returns and runs its deferred calls.
pub data Turn {ℓ} (A : Type ℓ) : Type ℓ where
  again : A → Turn A
  returned : A → Turn A

abbrev assert_ping : Payload → Outcome PingMessage
assert_ping (ping p) = ok p
assert_ping _ = panic failed_assertion

abbrev assert_pong : Payload → Outcome PongMessage
assert_pong (pong p) = ok p
assert_pong _ = panic failed_assertion

pong_message : Message → PingMessage → Message
pong_message m p = record {
  sender = "";
  received_at = m.received_at;
  type = message_type_pong;
  payload = pong (record { timestamp = p.timestamp; svc_time = zero_float });
}

-- The switch of handleVChamberClient. The second part of the state is the room's recvQueue.
unfoldable pub handle_message :
    Message → ClientConn → Chan Message → Outcome (ClientConn × Chan Message)
unfolding pong_message
handle_message m c room_queue =
    let m' = record m { sender = c.id } in
    if int_eq m'.type message_type_ping
    then (do
      p ← assert_ping m'.payload
      q ← send (pong_message m' p) c.send_queue
      ok (record c { send_queue = q }, room_queue))
    else if int_eq m'.type message_type_state_update
    then if is_master c.state then (do q ← send m' room_queue; ok (c, q)) else ok (c, room_queue)
    else ok (c, room_queue)

handle_received :
    Option Message → ClientConn → Chan Message → Outcome (Turn (ClientConn × Chan Message))
unfolding handle_message
handle_received none c room_queue = ok (returned (c, room_queue))
handle_received (some m) c room_queue = do s ← handle_message m c room_queue; ok (again s)

-- One round of handleVChamberClient.
unfoldable pub handle_vchamber_client :
    Ready → ClientConn → Chan Message → Outcome (Turn (ClientConn × Chan Message))
unfolding handle_received
handle_vchamber_client on_queue c room_queue = do
  (m, q) ← recv c.recv_queue
  handle_received m (record c { recv_queue = q }) room_queue
handle_vchamber_client on_closing c room_queue = do
  (_, q) ← recv c.closing
  ok (returned (c, room_queue))

-- What a round writes to the websocket.
pub data Frame : Type 0 where
  no_frame : Frame
  text_frame : Message → Frame
  close_frame : Frame

-- The service time goes into a pong when it is sent.
stamp_pong : FloatOps → Time → Message → Outcome Message
stamp_pong fl now msg =
    if int_eq msg.type message_type_pong
    then (do
      p ← assert_pong msg.payload
      ok (record msg {
        payload = pong (record p { svc_time = fl.seconds (since now msg.received_at) });
      }))
    else ok msg

write_message :
    FloatOps → Time → Bool → Option Message → ClientConn → Outcome (Turn (ClientConn × Frame))
unfolding stamp_pong
write_message fl now written none c = ok (returned (c, close_frame))
write_message fl now written (some msg) c = do
  msg' ← stamp_pong fl now msg
  if written then ok (again (c, text_frame msg')) else ok (returned (c, text_frame msg'))

-- What handleWSClientSend does with its queue; `written` says whether WriteMessage succeeds.
unfoldable pub handle_send_queue :
    FloatOps → Time → Bool → ClientConn → Outcome (Turn (ClientConn × Frame))
unfolding write_message
handle_send_queue fl now written c = do
  (msg, q) ← recv c.send_queue
  write_message fl now written msg (record c { send_queue = q })

-- One round of handleWSClientSend, up to the deferred function.
unfoldable pub handle_ws_client_send :
    FloatOps → Time → Bool → Ready → ClientConn → Outcome (Turn (ClientConn × Frame))
handle_ws_client_send fl now written on_queue c = handle_send_queue fl now written c
handle_ws_client_send fl now written on_closing c = do
  (_, q) ← recv c.closing
  ok (returned (c, no_frame))

-- The deferred c.room.deqClient <- c, with which a goroutine of a client ends. `D` is the client, as
-- it goes through the channel; `taken` says whether the manager receives it.
pub leave_room : {A D : Type 0} → Bool → Chan D → Turn A → Outcome (Turn A)
leave_room taken deq (again a) = ok (again a)
leave_room taken deq (returned a) = do _ ← offer taken deq; ok (returned a)

-- A round of handleWSClientSend with the deferred function, if it returns.
pub sender_turn :
    {D : Type 0}
    → FloatOps
    → Time
    → Bool
    → Ready
    → Bool
    → Chan D
    → ClientConn
    → Outcome (Turn (ClientConn × Frame))
unfolding leave_room
sender_turn fl now written ready taken deq c = do
  t ← handle_ws_client_send fl now written ready c
  leave_room taken deq t
