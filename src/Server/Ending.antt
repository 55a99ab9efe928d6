-- ===== src/Server/Ending.antt =====
-- A room that ends for the lack of a master, and what its clients' goroutines meet then.
use vchamber.Prelude.{
  Bool-cases, inl, inr, ◌≡◌, sym, ap, true, List, All, some, String, lookup, ◌+◌, ◌<◌, ◌==◌, length,
  send, send_closed, panic, send_on_closed, Returns, Returns-map, Returns-Partly, update, arith,
  subst,
}
use vchamber.Wire.{FloatOps}
use vchamber.Codec.Types.{IsTyped}
use vchamber.Conn.Authority.{state_of}
use vchamber.Conn.Typed.{AreTyped}
use vchamber.Conn.Sending.{Moment, run_sender, HasReturned, run_sender-HasReturned}
use vchamber.Room.{ClientRef, Room, Chamber}
use vchamber.Manager.{Manager, on_shutdown}
use vchamber.Manager.Invariant as ManagerInvariant
use vchamber.Manager.Ending.{Ends, on_shutdown-Ends}
use vchamber.Manager.Shutdown.{on_shutdown_empties}
use vchamber.Server.{RoomRef, Hub, room_out, run_server}
use vchamber.Server.Invariant.{Inv, IsOpen, kill_registered}

-- The server's room as its manager has left it.
abbrev pub left_by : RoomRef → Room → Hub → Hub
left_by r room hub = record hub { store = update hub.store r room }

module _ (r : RoomRef) (hub : Hub) (ch ch' : Chamber) (v : Inv hub) (same : hub.store r ≡ ch.room)
    (e : Ends ch ch') where
  left_by-Inv : Inv (left_by r ch'.room hub)
  left_by-Inv = record {
    distinct = v.distinct;
    keyed = λ k s h.
        ground (arith, v.keyed k s, ap (λ (x : Room). x.id) e.0, ap (λ (x : Room). x.id) same);
    live = λ k s h. elim (Bool-cases (r == s)) [
      | inl here ↦
          let found : lookup k hub.server.rooms ≡ some r = ground arith in
          rw here (subst IsOpen (sym e.0) (subst IsOpen same (v.live k r found)))
      | inr there ↦ rw there (v.live k s h)
    ];
  }

  -- The client's request, once the server has removed the room.
  asks_too_late :
      lookup (hub.store r).id hub.server.rooms ≡ some r
      → (c : ClientRef)
      → Returns
          (run_server (room_out (some r)) (left_by r ch'.room hub))
          (λ t. send c ((state_of t).store r).deq_client ≡ panic send_on_closed)
  unfolding run_server
  asks_too_late h c =
      rw
        (kill_registered r (left_by r ch'.room hub) left_by-Inv
          (ground (arith, h, ap (λ (x : Room). x.id) e.0, ap (λ (x : Room). x.id) same)))
        (send_closed c _ (ground arith))

-- A room that ends with a client in it takes the server down. When the shutdown timer of a well-
-- formed manager has gone off and a client is still registered, the manager's end completes, and
-- from there on the client's goroutine that writes, if its messages are well typed, leaves its loop
-- after one round more than it has messages at the latest; but once the well-formed server, where
-- the room is registered, has served the manager's request to remove the room, the request to remove
-- the client, with which that goroutine ends, panics.
pub ended_room_panics :
    (fl : FloatOps) (mg : Manager) (hub : Hub) (r : RoomRef) (k : String) (c : ClientRef)
    (ms : List Moment)
    → ManagerInvariant.Inv mg
    → mg.shutdown_timer.fired ≡ true
    → lookup k mg.chamber.room.clients ≡ some c
    → AreTyped (mg.chamber.conns c).send_queue
    → length (mg.chamber.conns c).send_queue.buffer < length ms
    → Inv hub
    → hub.store r ≡ mg.chamber.room
    → lookup (hub.store r).id hub.server.rooms ≡ some r
    → Returns (on_shutdown mg) (λ mg'.
      Returns
        (run_sender fl ms (mg'.chamber.conns c))
        (HasReturned (length (mg.chamber.conns c).send_queue.buffer + 1))
      × Returns
          (run_server (room_out (some r)) (left_by r mg'.chamber.room hub))
          (λ t. send c ((state_of t).store r).deq_client ≡ panic send_on_closed))
ended_room_panics fl mg hub r k c ms v fired here typed short w same bound =
    Returns-map (on_shutdown mg) _ _
      (Returns-Partly (on_shutdown mg) _ (λ mg'. Ends mg.chamber mg'.chamber)
        (on_shutdown_empties mg v fired) (on_shutdown-Ends mg))
      (λ mg' ((empty, closed), e). (
        subst (λ b. Returns (run_sender fl ms (mg'.chamber.conns c)) (HasReturned (length b + 1)))
            (e.1 c)
            (run_sender-HasReturned fl ms (mg'.chamber.conns c)
              ((closed k c here).0, (closed k c here).1, subst (All IsTyped) (sym (e.1 c)) typed)
              (rw (e.1 c) short)),
        asks_too_late r hub mg.chamber mg'.chamber w same e bound c,
      ))
