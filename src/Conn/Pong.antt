-- ===== src/Conn/Pong.antt =====
-- Pings and pongs, from the receipt of a ping to the frame that answers it.
use vchamber.Prelude.{
  ◌≡◌, ◌<◌, true, false, List, [], ◌∷◌, Chan, recv, send, panic, send_on_closed, Returns, arith,
}
use vchamber.Wire.{
  FloatOps, Time, Message, ping, pong, PingMessage, message_type_ping, message_type_pong,
}
use vchamber.Playback.{since}
use vchamber.Conn.Authority.{state_of}
use vchamber.Conn.{
  ClientConn, on_queue, handle_vchamber_client, text_frame, handle_ws_client_send,
  handle_send_queue,
}

-- A ping at the head of the queue of an idle connection, whose sending queue is open and holds at
-- least one message, is answered: the next frame that goes out, if it can be written, is a pong
-- with the time stamp of the ping, and with the time since its receipt; the sending queue is empty
-- then, the rest of the received messages waits as before, and the room's queue is not touched.
pub ping_answered :
    (fl : FloatOps) (now : Time) (m : Message) (p : PingMessage) (rest : List Message)
    (c : ClientConn) (room_queue : Chan Message)
    → c.recv_queue.buffer ≡ m ∷ rest
    → m.type ≡ message_type_ping
    → m.payload ≡ ping p
    → c.send_queue.buffer ≡ []
    → c.send_queue.closed ≡ false
    → 0 < c.send_queue.capacity
    → Returns (handle_vchamber_client on_queue c room_queue) (λ t.
      Returns (handle_ws_client_send fl now true on_queue (state_of t).0) (λ u.
        ((state_of t).1 ≡ room_queue)
        × ((state_of u).0.send_queue.buffer ≡ [])
        × ((state_of u).0.recv_queue.buffer ≡ rest)
        × ((state_of u).1
            ≡ text_frame (record {
              sender = "";
              received_at = m.received_at;
              type = message_type_pong;
              payload = pong (record {
                timestamp = p.timestamp;
                svc_time = fl.seconds (since now m.received_at);
              });
            }))))
unfolding handle_vchamber_client handle_ws_client_send handle_send_queue recv send
ping_answered fl now m p rest c room_queue e ty pl idle open_queue space = ground arith

pub ping-send_on_closed :
    (m : Message) (p : PingMessage) (rest : List Message) (c : ClientConn)
    (room_queue : Chan Message)
    → c.recv_queue.buffer ≡ m ∷ rest
    → m.type ≡ message_type_ping
    → m.payload ≡ ping p
    → c.send_queue.closed ≡ true
    → handle_vchamber_client on_queue c room_queue ≡ panic send_on_closed
unfolding handle_vchamber_client recv send
ping-send_on_closed m p rest c room_queue e ty pl shut = ground arith
