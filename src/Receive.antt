-- ===== src/Receive.antt =====
-- handleWSClientRecv of server/server/wsserver.go: the goroutine that reads a client's messages.
pub mod Soundness
pub mod Effects
pub mod Arrival
use vchamber.Prelude.{
  ℕ, Bool, List, Option, none, some, String, Chan, recv, send, close_chan, Outcome, ok, blocked,
  panic, ◌>>=◌,
}
use vchamber.Wire.{Time, Message}
use vchamber.Conn.{ClientConn, Turn, again, returned, leave_room}
use vchamber.Codec.{Json, zero_message, deserialise}

-- What ReadMessage comes to.
pub data Read : Type 0 where
  frame : List ℕ → Read
  read_error : Read

-- The deferred close(c.recvQueue). After it comes leave_room.
stop_receiving : ClientConn → Outcome (Turn ClientConn)
stop_receiving c = do q ← close_chan c.recv_queue; ok (returned (record c { recv_queue = q }))

-- An invalid message is skipped.
take_decoded : Message × Option String → ClientConn → Outcome (Turn ClientConn)
take_decoded (msg, some e) c = ok (again c)
take_decoded (msg, none) c = do q ← send msg c.recv_queue; ok (again (record c { recv_queue = q }))

take_read : Json → Time → Read → ClientConn → Outcome (Turn ClientConn)
unfolding stop_receiving take_decoded
take_read json now read_error c = stop_receiving c
take_read json now (frame buf) c = take_decoded (deserialise json now buf zero_message) c

receive_unless :
    Json → Time → Read → ClientConn → Outcome (Option Bool × Chan Bool) → Outcome (Turn ClientConn)
unfolding take_read
receive_unless json now r c (ok s) = stop_receiving c
receive_unless json now r c blocked = take_read json now r c
receive_unless json now r c (panic x) = panic x

-- One round of handleWSClientRecv, up to the send at the end of the deferred function: the select
-- takes its default if `closing` is not closed.
unfoldable pub handle_ws_client_recv : Json → Time → Read → ClientConn → Outcome (Turn ClientConn)
unfolding receive_unless
handle_ws_client_recv json now r c = receive_unless json now r c (recv c.closing)

-- A round of handleWSClientRecv with the whole deferred function, if it returns.
pub reader_turn :
    {D : Type 0} → Json → Time → Read → Bool → Chan D → ClientConn → Outcome (Turn ClientConn)
reader_turn json now r taken deq c = do
  t ← handle_ws_client_recv json now r c
  leave_room taken deq t
