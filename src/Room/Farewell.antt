-- ===== src/Room/Farewell.antt =====
-- A client's removal, and the goroutine that writes to it.
use vchamber.Prelude.{
  ◌≡◌, ok, [], ◌∷◌, ◌++◌, refl, some, List, ◌+◌, ◌<◌, length, lookup, Returns, ◌>>=◌, update_self,
}
use vchamber.Wire.{FloatOps, Time}
use vchamber.Conn.{returned, close_frame}
use vchamber.Conn.Order.{sending, waiting, frames, run_sender_to_the_end}
use vchamber.Conn.Typed.{AreTyped}
use vchamber.Conn.Sending.{Moment, run_sender, HasReturned, run_sender-HasReturned}
use vchamber.Room.{ClientRef, Chamber, kill_client}
use vchamber.Room.Invariant.{Inv}
use vchamber.Room.Kill.{closed_conn, kill_registered}

-- After killClient on a registered client of a well-formed room, whose waiting messages are well
-- typed, the loop that writes to it returns: after one round more than there are messages at the
-- latest, with at most one frame for each round, whichever cases its selects take and whether or
-- not the writes succeed.
pub removed_sender_ends :
    (fl : FloatOps) (c : ClientRef) (ch : Chamber) (ms : List Moment)
    → Inv ch
    → lookup (ch.conns c).id ch.room.clients ≡ some c
    → AreTyped (ch.conns c).send_queue
    → length (ch.conns c).send_queue.buffer < length ms
    → Returns
        (do ch' ← kill_client (some c) ch; run_sender fl ms (ch'.conns c))
        (HasReturned (length (ch.conns c).send_queue.buffer + 1))
removed_sender_ends fl c ch ms v r t l = rw (kill_registered c ch v r) (
    rw (update_self ch.conns c (closed_conn (ch.conns c)))
      (run_sender-HasReturned fl ms (closed_conn (ch.conns c)) (refl, refl, t) l))

-- A client that is removed from a well-formed room still gets all that waits for it, in order, if its
-- messages are well typed and the goroutine that writes to it takes the queue in each round and can
-- write: after one round for each message and one more it has written each of them, and then a close
-- frame, and has returned.
pub removed_client_told :
    (fl : FloatOps) (c : ClientRef) (ch : Chamber) (ts : List Time)
    → Inv ch
    → lookup (ch.conns c).id ch.room.clients ≡ some c
    → AreTyped (ch.conns c).send_queue
    → length ts ≡ length (ch.conns c).send_queue.buffer + 1
    → (do ch' ← kill_client (some c) ch; run_sender fl (sending ts) (ch'.conns c))
      ≡ ok (
          returned (
            waiting [] (closed_conn (ch.conns c)),
            frames fl ts (ch.conns c).send_queue.buffer ++ close_frame ∷ [],
          ))
removed_client_told fl c ch ts v r t l = rw (kill_registered c ch v r) (
    rw (update_self ch.conns c (closed_conn (ch.conns c))) (
      run_sender_to_the_end fl ts (ch.conns c).send_queue.buffer (closed_conn (ch.conns c)) l refl
        refl t))
