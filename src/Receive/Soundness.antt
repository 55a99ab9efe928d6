-- ===== src/Receive/Soundness.antt =====
-- handleWSClientRecv, whatever it reads.
use vchamber.Prelude.{
  ◌≡◌, refl, Bool, true, false, Option, none, some, String, if◌then◌else◌, Chan, recv, recv-Safely,
  send, send-All, close_chan, Outcome, ok, blocked, panic, Safely, bind-Safely, bind_idle,
}
use vchamber.Wire.{Time, Message}
use vchamber.Conn.{ClientConn, Turn, again, returned}
use vchamber.Conn.Typed.{AreTyped, leave_room-Safely, leave_room_open}
use vchamber.Codec.{Json, zero_message, deserialise}
use vchamber.Codec.Types.{IsTyped, deserialise-IsTyped}
use vchamber.Receive.{
  Read, frame, read_error, stop_receiving, take_decoded, take_read, receive_unless,
  handle_ws_client_recv, reader_turn,
}

-- The queue is open while the goroutine reads, and closed once it has returned; of the connection
-- nothing else has changed.
abbrev pub Received : ClientConn → Turn ClientConn → Type 0
Received c (again c') =
    (c'.recv_queue.closed ≡ false)
    × AreTyped c'.recv_queue
    × (c' ≡ record c { recv_queue = c'.recv_queue })
Received c (returned c') =
    (c'.recv_queue.closed ≡ true)
    × AreTyped c'.recv_queue
    × (c' ≡ record c { recv_queue = c'.recv_queue })

module _ (json : Json) (now : Time) (c : ClientConn) (o : c.recv_queue.closed ≡ false)
    (h : AreTyped c.recv_queue) where
  stop_receiving-Received : Safely (stop_receiving c) (Received c)
  unfolding stop_receiving close_chan
  stop_receiving-Received = rw (o, if◌then◌else◌) (refl, h, refl)

  take_decoded-Received :
      (d : Message × Option String)
      → (d.1 ≡ none → IsTyped d.0)
      → Safely (take_decoded d c) (Received c)
  unfolding take_decoded
  take_decoded-Received (msg, some e) t = (o, h, refl)
  take_decoded-Received (msg, none) t =
      bind-Safely (send msg c.recv_queue) _ (λ q. (q.closed ≡ false) × AreTyped q) (Received c)
        (send-All IsTyped msg c.recv_queue o h (t refl)) (λ q (o', h'). (o', h', refl))

  take_read-Received : (r : Read) → Safely (take_read json now r c) (Received c)
  unfolding take_read
  take_read-Received read_error = stop_receiving-Received
  take_read-Received (frame buf) =
      take_decoded-Received (deserialise json now buf zero_message)
        (λ e. (deserialise-IsTyped json now buf zero_message e).0)

  receive_unless-Received :
      (r : Read) (s : Outcome (Option Bool × Chan Bool))
      → Safely s (λ x. Unit)
      → Safely (receive_unless json now r c s) (Received c)
  unfolding receive_unless
  receive_unless-Received r (ok s) q = stop_receiving-Received
  receive_unless-Received r blocked q = take_read-Received r
  receive_unless-Received r (panic x) q = absurd q

  -- A round up to the deferred request.
  handle_ws_client_recv-Received :
      (r : Read) → Safely (handle_ws_client_recv json now r c) (Received c)
  unfolding handle_ws_client_recv
  handle_ws_client_recv-Received r =
      receive_unless-Received r (recv c.closing) (recv-Safely c.closing)

  -- While the client's receiving queue and the room's deqClient are open, and the messages in that
  -- queue are well typed, a round of the read loop does not panic, whatever is read from the
  -- websocket, its deferred close and request included: it waits, or of the connection it has changed
  -- the receiving queue only, where every message stays well typed, and which is closed exactly if
  -- the goroutine returns. If the manager receives the request, the round comes to what its loop
  -- comes to, with the close.
  pub reader_turn-Received :
      {D : Type 0} (r : Read) (taken : Bool) (deq : Chan D)
      → deq.closed ≡ false
      → Safely (reader_turn json now r taken deq c) (Received c)
        × (reader_turn json now r true deq c ≡ handle_ws_client_recv json now r c)
  unfolding reader_turn
  reader_turn-Received r taken deq e = (
    bind-Safely (handle_ws_client_recv json now r c) _ (Received c) (Received c)
        (handle_ws_client_recv-Received r) (λ t s. leave_room-Safely taken deq (Received c) e t s),
    bind_idle (handle_ws_client_recv json now r c) _ (leave_room_open deq e),
  )
