-- ===== src/Room/Removed.antt =====
-- What the goroutines of a client meet once the manager has removed it.
use vchamber.Prelude.{◌≡◌, ◌∷◌, List, some, lookup, Chan, panic, send_on_closed, Returns, arith}
use vchamber.Wire.{Message, PingMessage, ping, message_type_ping}
use vchamber.Conn.{on_queue, handle_vchamber_client}
use vchamber.Conn.Pong.{ping-send_on_closed}
use vchamber.Room.{ClientRef, Chamber, kill_client}
use vchamber.Room.Invariant.{Inv}
use vchamber.Room.Kill.{kill_registered, without}

-- Whenever a client of a well-formed room is removed while a ping of it still waits to be handled,
-- its goroutine panics on the closed queue if the select takes the ping rather than the closing.
pub removed_ping_panics :
    (c : ClientRef) (ch : Chamber) (m : Message) (p : PingMessage) (rest : List Message)
    (room_queue : Chan Message)
    → Inv ch
    → lookup (ch.conns c).id ch.room.clients ≡ some c
    → (ch.conns c).recv_queue.buffer ≡ m ∷ rest
    → m.type ≡ message_type_ping
    → m.payload ≡ ping p
    → Returns
        (kill_client (some c) ch)
        (λ ch'. handle_vchamber_client on_queue (ch'.conns c) room_queue ≡ panic send_on_closed)
removed_ping_panics c ch m p rest room_queue v h waits ty pl = rw (kill_registered c ch v h) (
    ping-send_on_closed m p rest ((without c ch).conns c) room_queue (ground arith) ty pl
      (ground arith))
