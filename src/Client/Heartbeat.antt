-- ===== src/Client/Heartbeat.antt =====
-- A heartbeat of the headless client, through the server's goroutines for its connection, and back.
use vchamber.Prelude.{◌≡◌, ◌<◌, refl, true, false, none, [], Chan, Returns, Returns-map}
use vchamber.Wire.{Float64, Time, FloatOps, Message, message_type_pong, pong}
use vchamber.Playback.{since}
use vchamber.Codec.{Json, serialise, zero_message, deserialise}
use vchamber.Codec.RoundTrip.{JsonLaws, arrived, deserialise-serialise}
use vchamber.Conn.{ClientConn, on_queue, handle_vchamber_client, handle_ws_client_send, text_frame}
use vchamber.Conn.Authority.{state_of}
use vchamber.Conn.Pong.{ping_answered}
use vchamber.Receive.{frame, handle_ws_client_recv}
use vchamber.Receive.Arrival.{IsListening, holding, handle_ws_client_recv-serialise}
use vchamber.Client.{Client, on_ticker, heartbeat, client_send_heartbeat}

-- The answer to a heartbeat.
abbrev pub answer : FloatOps → Float64 → Time → Time → Message
answer fl seconds got now = record {
  sender = "";
  received_at = got;
  type = message_type_pong;
  payload = pong (record { timestamp = seconds; svc_time = fl.seconds (since now got) });
}

module _ (IsFinite : Float64 → Type 0) (json : Json) (laws : JsonLaws IsFinite json) where
  -- A heartbeat comes back. Once the headless client has written its heartbeat, with its time, the
  -- server's connection, if it is open, with all that was received handled, with space for a message
  -- and with nothing to be sent, reads it, handles it and writes a pong, if it can; the room's queue
  -- is not touched, and both queues of the connection are empty again. What the client reads then is
  -- a pong with the time that it had sent, and with the time since the receipt of the ping; this is
  -- so if both times are finite, and encoding/json reads back what it writes of messages with finite
  -- floats and ints of 64 bits.
  pub heartbeat_answered :
      (fl : FloatOps) (seconds : Float64) (got now back : Time) (h : Client) (c : ClientConn)
      (room_queue : Chan Message)
      → IsFinite seconds
      → IsFinite (fl.seconds (since now got))
      → IsListening c
      → c.send_queue.buffer ≡ []
      → c.send_queue.closed ≡ false
      → 0 < c.send_queue.capacity
      → Returns (client_send_heartbeat seconds true on_ticker h) (λ s.
        ((state_of s).1 ≡ text_frame (heartbeat seconds))
        × Returns
            (handle_ws_client_recv json got (frame (serialise json (heartbeat seconds)).0) c)
            (λ t. Returns (handle_vchamber_client on_queue (state_of t) room_queue) (λ u.
              Returns (handle_ws_client_send fl now true on_queue (state_of u).0) (λ w.
                ((state_of u).1 ≡ room_queue)
                × ((state_of w).0.send_queue.buffer ≡ [])
                × ((state_of w).0.recv_queue.buffer ≡ [])
                × ((state_of w).1 ≡ text_frame (answer fl seconds got now))
                × (deserialise json back (serialise json (answer fl seconds got now)).0 zero_message
                    ≡ (arrived back (answer fl seconds got now), none))))))
  unfolding client_send_heartbeat
  heartbeat_answered fl seconds got now back h c room_queue f g l idle unclosed space = (
    refl,
    rw (handle_ws_client_recv-serialise IsFinite json laws got (heartbeat seconds) c l refl f) (
        Returns-map
          (handle_vchamber_client on_queue (holding (arrived got (heartbeat seconds)) c) room_queue)
          _ _
          (ping_answered fl now (arrived got (heartbeat seconds)) (record { timestamp = seconds })
            [] (holding (arrived got (heartbeat seconds)) c) room_queue refl refl refl idle unclosed
            space)
          (λ u r.
            Returns-map (handle_ws_client_send fl now true on_queue (state_of u).0) _ _ r
              (λ w (same, sent, taken, pong_frame). (
                same,
                sent,
                taken,
                pong_frame,
                (deserialise-serialise IsFinite json laws back (answer fl seconds got now) refl
                    (f, g)).1,
              )))),
  )
