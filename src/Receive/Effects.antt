-- ===== src/Receive/Effects.antt =====
-- What the read loop does to a connection, if a round completes.
use vchamber.Prelude.{
  ◌≡◌, refl, Bool, All, All-snoc, Option, none, some, String, Chan, recv, send, close_chan, Outcome,
  ok, blocked, panic, Partly, bind-Partly, arith,
}
use vchamber.Wire.{Time, Message}
use vchamber.Conn.{ClientConn}
use vchamber.Conn.Authority.{state_of}
use vchamber.Conn.Effects.{send_lem}
use vchamber.Codec.{Json, zero_message, deserialise}
use vchamber.Receive.{
  Read, frame, read_error, stop_receiving, take_decoded, take_read, receive_unless,
  handle_ws_client_recv,
}

-- What a read hands on is good.
abbrev pub Yields : (Message → Type 0) → Json → Time → Read → Type 0
Yields P json now read_error = Unit
Yields P json now (frame buf) =
    (deserialise json now buf zero_message).1 ≡ none → P (deserialise json now buf zero_message).0

-- Only the receiving queue has changed.
abbrev pub ReceivedTo : (Message → Type 0) → ClientConn → ClientConn → Type 0
ReceivedTo P c d = (d ≡ record c { recv_queue = d.recv_queue }) × All P d.recv_queue.buffer

module _ (P : Message → Type 0) (json : Json) (now : Time) (c : ClientConn)
    (h : All P c.recv_queue.buffer) where
  stop_receiving-ReceivedTo : Partly (stop_receiving c) (λ t. ReceivedTo P c (state_of t))
  unfolding stop_receiving close_chan
  stop_receiving-ReceivedTo =
      bind-Partly (close_chan c.recv_queue) _ (λ q. q.buffer ≡ c.recv_queue.buffer) _ (ground arith)
        (λ q e. (refl, rw e h))

  take_decoded-ReceivedTo :
      (d : Message × Option String)
      → (d.1 ≡ none → P d.0)
      → Partly (take_decoded d c) (λ t. ReceivedTo P c (state_of t))
  unfolding take_decoded
  take_decoded-ReceivedTo (msg, some e) p = (refl, h)
  take_decoded-ReceivedTo (msg, none) p =
      bind-Partly (send msg c.recv_queue) _ _ _ (send_lem msg c.recv_queue)
        (λ q (o, b). (refl, rw b (All-snoc P c.recv_queue.buffer msg h (p refl))))

  take_read-ReceivedTo :
      (r : Read)
      → Yields P json now r
      → Partly (take_read json now r c) (λ t. ReceivedTo P c (state_of t))
  unfolding take_read
  take_read-ReceivedTo read_error y = stop_receiving-ReceivedTo
  take_read-ReceivedTo (frame buf) y =
      take_decoded-ReceivedTo (deserialise json now buf zero_message) y

  receive_unless-ReceivedTo :
      (r : Read) (o : Outcome (Option Bool × Chan Bool))
      → Yields P json now r
      → Partly (receive_unless json now r c o) (λ t. ReceivedTo P c (state_of t))
  unfolding receive_unless
  receive_unless-ReceivedTo r (ok s) y = stop_receiving-ReceivedTo
  receive_unless-ReceivedTo r blocked y = take_read-ReceivedTo r y
  receive_unless-ReceivedTo r (panic x) y = tt

  pub handle_ws_client_recv-ReceivedTo :
      (r : Read)
      → Yields P json now r
      → Partly (handle_ws_client_recv json now r c) (λ t. ReceivedTo P c (state_of t))
  unfolding handle_ws_client_recv
  handle_ws_client_recv-ReceivedTo r y = receive_unless-ReceivedTo r (recv c.closing) y
