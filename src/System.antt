-- ===== src/System.antt =====
-- A room of a backend as a whole, from server/server/wsserver.go: its manager, and for each client
-- the goroutine of the handshake and the three that it starts, interleaved in any order.
pub mod Invariant
pub mod Guests
pub mod Moves
pub mod Ghosts
pub mod Safety
pub mod Relay
use vchamber.Prelude.{
  ℕ, ◌≡◌, ◌≢◌, Bool, true, false, Option, none, some, String, List, Chan, expire, Outcome, ok,
  if◌then◌else◌, ◌==◌, update, ◌⊎◌,
}
use vchamber.Wire.{FloatOps, Time, Message}
use vchamber.Conn.{
  ClientConn, Turn, again, returned, Ready, Frame, handle_vchamber_client, handle_ws_client_send,
}
use vchamber.Conn.Authority.{state_of}
use vchamber.Codec.{Json}
use vchamber.Receive.{Read, handle_ws_client_recv}
use vchamber.Room.{ClientRef, Room}
use vchamber.Manager.{Manager, Readings, Event, client_in, client_out, run_manager}
use vchamber.Manager.Effects.{IsInternal}
use vchamber.Manager.Rounds.{with_conns, with_queue, new_manager}
use vchamber.Server.{Hub, RoomRef}
use vchamber.Handshake.{admitted, handle_ws_client}

-- A goroutine that leaves its loop has a last thing to do: to send the client to the manager.
pub data Activity : Type 0 where
  absent running leaving gone : Activity

-- `greeter` is the handshake, which sends the client to enqClient at its end; the others are
-- handleWSClientRecv, handleVChamberClient and handleWSClientSend.
pub record Threads : Type 0 where
  pub greeter : Activity
  pub reader : Activity
  pub handler : Activity
  pub sender : Activity

pub record System : Type 0 where
  pub manager : Manager
  pub threads : ClientRef → Threads

abbrev pub after {ℓ} : {A : Type ℓ} → Turn A → Activity
after (again a) = running
after (returned a) = leaving

-- The three goroutines that end with c.room.deqClient <- c.
pub data Goroutine : Type 0 where
  the_reader the_handler the_sender : Goroutine

abbrev pub activity : Goroutine → Threads → Activity
activity the_reader t = t.reader
activity the_handler t = t.handler
activity the_sender t = t.sender

abbrev pub set_activity : Goroutine → Activity → Threads → Threads
set_activity the_reader a t = record t { reader = a }
set_activity the_handler a t = record t { handler = a }
set_activity the_sender a t = record t { sender = a }

abbrev pub conn_of : System → ClientRef → ClientConn
conn_of s c = s.manager.chamber.conns c

-- A goroutine of a client has changed its connection and the room's queue.
abbrev pub worked : ClientRef → ClientConn → Chan Message → Threads → System → System
worked c conn q t s = record s {
  manager = with_conns (with_queue s.manager q) (update s.manager.chamber.conns c conn);
  threads = update s.threads c t;
}

abbrev pub all_running : Threads
all_running = record { greeter = running; reader = running; handler = running; sender = running }

abbrev pub managed : Manager → System → System
managed mg s = record s { manager = mg }

-- xid.New gives an ID that no client has.
abbrev pub IsNew : String → System → Type 0
IsNew cid s = (c : ClientRef) → (s.threads c).greeter ≢ absent → (conn_of s c).id ≢ cid

-- What may happen next. The tokens that clients present and what is read from their websockets are
-- those of two predicates.
module _ (fl : FloatOps) (json : Json) (Presents : String → Type 0) (Reads : Read → Type 0) where
  pub data Step (s : System) : System → Type 0 where
    connects :
        (c : ClientRef) (hub : Hub) (r : RoomRef) (roomid token cid : String)
        (upgraded : Option String) {conn : ClientConn}
        → (s.threads c).greeter ≡ absent
        → Presents token
        → (hub.store r).master_key ≡ s.manager.chamber.room.master_key
        → IsNew cid s
        → handle_ws_client hub roomid token cid upgraded ≡ ok (admitted r conn)
        → Step s (worked c conn s.manager.chamber.room.recv_queue all_running s)
    joins :
        (c : ClientRef) (at : Readings) {mg : Manager}
        → (s.threads c).greeter ≡ running
        → run_manager fl at (client_in (some c)) s.manager ≡ ok (again mg)
        → Step s (record s {
          manager = mg;
          threads = update s.threads c (record (s.threads c) { greeter = gone });
        })
    departs :
        (c : ClientRef) (g : Goroutine) (at : Readings) {mg : Manager}
        → activity g (s.threads c) ≡ leaving
        → run_manager fl at (client_out (some c)) s.manager ≡ ok (again mg)
        → Step s (record s {
          manager = mg;
          threads = update s.threads c (set_activity g gone (s.threads c));
        })
    manages :
        (at : Readings) (e : Event) {mg : Manager}
        → IsInternal e
        → run_manager fl at e s.manager ≡ ok (again mg)
        → Step s (managed mg s)
    shutdown_expires :
        (now : Time)
        → Step s
            (managed (record s.manager { shutdown_timer = expire now s.manager.shutdown_timer }) s)
    cooldown_expires :
        (now : Time)
        → Step s (
            managed
              (record s.manager {
                update_cooldown_timer = expire now s.manager.update_cooldown_timer;
              })
              s)
    receives :
        (c : ClientRef) (now : Time) (r : Read) {t : Turn ClientConn}
        → (s.threads c).reader ≡ running
        → Reads r
        → handle_ws_client_recv json now r (conn_of s c) ≡ ok t
        → Step s (
            worked c
              (state_of t)
              s.manager.chamber.room.recv_queue
              (record (s.threads c) { reader = after t })
              s)
    handles :
        (c : ClientRef) (ready : Ready) {t : Turn (ClientConn × Chan Message)}
        → (s.threads c).handler ≡ running
        → handle_vchamber_client ready (conn_of s c) s.manager.chamber.room.recv_queue ≡ ok t
        → Step s
            (worked c (state_of t).0 (state_of t).1 (record (s.threads c) { handler = after t }) s)
    sends :
        (c : ClientRef) (now : Time) (written : Bool) (ready : Ready)
        {t : Turn (ClientConn × Frame)}
        → (s.threads c).sender ≡ running
        → handle_ws_client_send fl now written ready (conn_of s c) ≡ ok t
        → Step s (
            worked c
              (state_of t).0
              s.manager.chamber.room.recv_queue
              (record (s.threads c) { sender = after t })
              s)

  pub data Reach (s : System) : System → Type 0 where
    here : Reach s s
    next : {s' s'' : System} → Reach s s' → Step s' s'' → Reach s s''

abbrev pub no_threads : Threads
no_threads = record { greeter = absent; reader = absent; handler = absent; sender = absent }

-- A new room, to which nobody has connected.
abbrev pub new_system : Time → String → String → String → (ClientRef → ClientConn) → System
new_system now id m_key g_key conns = record {
  manager = new_manager now id m_key g_key conns;
  threads = λ c. no_threads;
}
