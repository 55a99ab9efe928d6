-- ===== src/Tests/Interleaving.antt =====
-- A room with its clients' goroutines: a guest that joins, and a master whose websocket breaks.
use vchamber.Prelude.{
  recv, close_chan, send, ◌≡◌, ◌≢◌, refl, true, false, none, some, [], String, lookup, ok, Chan,
  Outcome, Safely, is_armed, update, insert, expire,
}
use vchamber.Wire.{Message}
use vchamber.Playback.Laws.{whole_ops}
use vchamber.Conn.{
  ClientConn, client_state_master, client_state_guest, Turn, on_queue, handle_vchamber_client,
  handle_ws_client_send, handle_send_queue,
}
use vchamber.Conn.Authority.{state_of}
use vchamber.Receive.{read_error, handle_ws_client_recv}
use vchamber.Room.{new_room, join_client, kill_client, send_state, send_to}
use vchamber.Manager.{Manager, client_in, run_manager, start_manager, on_client_in, on_client_out}
use vchamber.Manager.Invariant.{Kept}
use vchamber.Handshake.{handle_ws_client, admitted}
use vchamber.Handshake.Access.{greeted, handle_ws_client-admits}
use vchamber.System.{
  Activity, absent, running, leaving, gone, Threads, System, conn_of, worked, all_running,
  the_reader, the_handler, the_sender, IsNew, Step, Reach, here, next, connects, joins, departs,
  receives, handles, sends, new_system, set_activity,
}
use vchamber.System as System
use vchamber.System.Guests.{stopped_at}
use vchamber.System.Guests.Steps.{guests_change_nothing}
use vchamber.System.Safety.{ReadsSound, interleaved_safe}
use vchamber.System.Ghosts.{IsGhost, ghost_master_stays}
use vchamber.Tests.Data.{at, conns}
use vchamber.Tests.Messages.{codec}
use vchamber.Tests.Servers.{hub, master_admitted}

abbrev start : System
start = new_system 0 "room" "master key" "guest key" conns

keys_differ : ◌≢◌ {A = String} "guest key" "master key"
keys_differ e = cc

guest_let_in :
    handle_ws_client hub "room" "guest key" "g" (some "vchamber_v1")
    ≡ ok (admitted 0 (greeted "g" client_state_guest))
unfolding new_room lookup
guest_let_in =
    handle_ws_client-admits hub "room" "guest key" "g" 0 client_state_guest (λ e. cc)
      (λ e. cc, refl, (keys_differ, refl))

abbrev guest_connected : System
guest_connected =
    worked 1 (greeted "g" client_state_guest) start.manager.chamber.room.recv_queue all_running
      start

guest_connects : Reach whole_ops codec (λ t. t ≢ "master key") (λ r. Unit) start guest_connected
unfolding new_room start_manager
guest_connects = next here (
    connects 1 hub 0 "room" "guest key" "g" (some "vchamber_v1") refl keys_differ refl
      (λ c n. absurd (n refl)) guest_let_in)

guests_change_nothing_example :
    (guest_connected.manager.chamber.room.state ≡ stopped_at 0)
    × (guest_connected.manager.chamber.room.recv_queue.buffer ≡ [])
    × (guest_connected.manager.buffered_update ≡ none)
guests_change_nothing_example =
    guests_change_nothing whole_ops codec 0 "room" "master key" "guest key" conns refl
      guest_connects

-- The manager after a round that goes on.
abbrev next_manager : Manager → Outcome (Turn Manager) → Manager
next_manager mg (ok t) = state_of t
next_manager mg _ = mg

interleaved_safe_example :
    Safely (run_manager whole_ops (at 1) (client_in (some 1)) guest_connected.manager) Kept
unfolding new_room start_manager
interleaved_safe_example =
    interleaved_safe whole_ops codec (λ t. t ≡ "guest key") 0 "room" "master key" "guest key" conns
      (next here (
        connects 1 hub 0 "room" "guest key" "g" (some "vchamber_v1") refl refl refl
          (λ c n. absurd (n refl)) guest_let_in))
      (at 1) (client_in (some 1)) refl

-- A master connects, and its websocket breaks before the hello is written: its goroutines leave, ...
abbrev queue : Chan Message
queue = start.manager.chamber.room.recv_queue

abbrev let_in : ClientConn
let_in = greeted "m" client_state_master

abbrev unread : ClientConn
unread = record let_in { recv_queue = record let_in.recv_queue { closed = true } }

abbrev unsent : ClientConn
unsent = record unread { send_queue = record unread.send_queue { buffer = [] } }

abbrev threads : Activity → Activity → Activity → Activity → Threads
threads g r h w = record { greeter = g; reader = r; handler = h; sender = w }

abbrev connected : System
connected = worked 0 let_in queue all_running start

abbrev left : System
left = worked 0 unsent queue (threads running leaving leaving leaving) (
    worked 0 unread queue (threads running leaving leaving running)
      (worked 0 unread queue (threads running leaving running running) connected))

-- ... are served by the manager, ...
abbrev departed : Threads → System → System
departed t s = record s { threads = update s.threads 0 t }

abbrev unserved : System
unserved = departed (threads running gone gone gone) (
    departed (threads running gone gone leaving)
      (departed (threads running gone leaving leaving) left))

-- ... and then the handshake is.
abbrev joined : Outcome (Turn Manager)
joined = run_manager whole_ops (at 2) (client_in (some 0)) unserved.manager

abbrev ghostly : System
ghostly = record {
  manager = next_manager start.manager joined;
  threads = update unserved.threads 0 (threads gone gone gone gone);
}

abbrev Ghostwise : System → System → Type 0
Ghostwise = Reach whole_ops codec (λ t. t ≡ "master key") (ReadsSound codec)

breaks : Ghostwise start left
unfolding new_room start_manager handle_ws_client_recv handle_vchamber_client handle_ws_client_send
    recv close_chan handle_send_queue
breaks =
    next
      (next
        (next
          (next here (
            connects 0 hub 0 "room" "master key" "m" (some "vchamber_v1") refl refl refl
              (λ c n. absurd (n refl)) master_admitted))
          (receives 0 1 read_error refl (λ now. tt) refl))
        (handles 0 on_queue refl refl))
      (sends 0 1 false on_queue refl refl)

is_served : Ghostwise start unserved
unfolding new_room start_manager run_manager on_client_out kill_client lookup
is_served =
    next
      (next (next breaks (departs 0 the_reader (at 0) refl refl))
        (departs 0 the_handler (at 0) refl refl))
      (departs 0 the_sender (at 0) refl refl)

haunts : Ghostwise start ghostly
unfolding new_room start_manager run_manager on_client_in join_client insert lookup send_state
    send_to send
haunts = next is_served (joins 0 (at 2) refl refl)

is_ghost : IsGhost 0 "m" client_state_master ghostly
unfolding new_room start_manager run_manager on_client_in join_client insert lookup send_state
    send_to send
is_ghost = record { named = refl; state = refl; registered = refl; left = refl }

ghost_master_stays_example :
    (lookup "m"
        (System.managed
          (record ghostly.manager { shutdown_timer = expire 100 ghostly.manager.shutdown_timer })
          ghostly).manager.chamber.room.clients
      ≡ some 0)
    × (is_armed (expire 100 ghostly.manager.shutdown_timer) ≡ false)
ghost_master_stays_example =
    ghost_master_stays whole_ops codec (λ t. t ≡ "master key") 0 "room" "master key" "guest key"
      conns 0 "m" haunts is_ghost (next here (System.shutdown_expires 100))
