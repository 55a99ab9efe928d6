-- ===== src/Receive/Arrival.antt =====
-- From Serialise at one end of a connection to the queue of received messages at the other.
use vchamber.Prelude.{◌≡◌, ◌<◌, refl, false, [], ◌∷◌, recv, send, ok, arith}
use vchamber.Wire.{Float64, Time, Message}
use vchamber.Conn.{ClientConn, again}
use vchamber.Codec.{Json, serialise}
use vchamber.Codec.RoundTrip.{JsonLaws, Fits, PayloadWritable, arrived, deserialise-serialise}
use vchamber.Receive.{frame, take_decoded, take_read, receive_unless, handle_ws_client_recv}

-- An open connection from which every message has been handled.
pub record IsListening (c : ClientConn) : Type 0 where
  pub not_closing : c.closing.buffer ≡ []
  pub not_closed : c.closing.closed ≡ false
  pub nothing_waits : c.recv_queue.buffer ≡ []
  pub queue_open : c.recv_queue.closed ≡ false
  pub space : 0 < c.recv_queue.capacity

abbrev pub holding : Message → ClientConn → ClientConn
holding m c = record c { recv_queue = record c.recv_queue { buffer = m ∷ [] } }

abbrev pub emptied : ClientConn → ClientConn
emptied c = record c { recv_queue = record c.recv_queue { buffer = [] } }

module _ (IsFinite : Float64 → Type 0) (json : Json) (laws : JsonLaws IsFinite json) (now : Time)
    (m : Message) (c : ClientConn) (l : IsListening c) where
  queued_first :
      send (arrived now m) c.recv_queue ≡ ok (record c.recv_queue { buffer = arrived now m ∷ [] })
  unfolding send
  queued_first = rw (l.queue_open, l.nothing_waits) (ground (arith, l.space))

  -- What the other end wrote is received.
  pub handle_ws_client_recv-serialise :
      Fits m.type m.payload
      → PayloadWritable IsFinite m.payload
      → handle_ws_client_recv json now (frame (serialise json m).0) c
        ≡ ok (again (holding (arrived now m) c))
  unfolding handle_ws_client_recv receive_unless take_read take_decoded recv
  handle_ws_client_recv-serialise e f =
      rw (l.not_closing, l.not_closed)
        (rw ((deserialise-serialise IsFinite json laws now m e f).1) (rw queued_first refl))
