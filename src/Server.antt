-- ===== src/Server.antt =====
-- Server of server/server/wsserver.go: the rooms of a backend, and its event loop.
pub mod Invariant
pub mod Closing
pub mod Ending
use vchamber.Prelude.{
  ℕ, ◌≡◌, Bool, true, false, List, [], ◌∷◌, Option, none, some, String, if◌then◌else◌, ◌==◌, GoMap,
  lookup, insert, delete, Chan, make_chan, recv, close_chan, Outcome, ok, ◌>>=◌, update,
}
use vchamber.Conn.{Turn, again, returned}
use vchamber.Room.{Room}

-- A pointer to a Room.
abbrev pub RoomRef : Type 0
RoomRef = ℕ

-- The channels enqRoom and deqRoom hold nothing and are never closed: what arrives on them is an
-- event. `closing_done` is the state of the sync.Once closingGuard.
pub record Server : Type 0 where
  pub rooms : GoMap RoomRef
  pub closing : Chan Bool
  pub closing_done : Bool

-- A server, the store of rooms, and the rooms whose RunManager was started.
pub record Hub : Type 0 where
  pub server : Server
  pub store : RoomRef → Room
  pub started : List RoomRef

unfoldable pub new_server : Server
new_server = record { rooms = []; closing = make_chan 0; closing_done = false }

unfoldable pub join_room : Option RoomRef → Hub → Hub
join_room none hub = hub
join_room (some r) hub = record hub {
  server = record hub.server { rooms = insert (hub.store r).id r hub.server.rooms };
  started = r ∷ hub.started;
}

-- The four channels of a room, closed.
close_room : Room → Outcome Room
close_room r = do
  closing ← close_chan r.closing
  recv_queue ← close_chan r.recv_queue
  enq_client ← close_chan r.enq_client
  deq_client ← close_chan r.deq_client
  ok (record r {
    closing = closing;
    recv_queue = recv_queue;
    enq_client = enq_client;
    deq_client = deq_client;
  })

remove_room : RoomRef → Hub → Outcome Hub
unfolding close_room
remove_room r hub = do
  room ← close_room (hub.store r)
  ok (record hub {
    server = record hub.server { rooms = delete (hub.store r).id hub.server.rooms };
    store = update hub.store r room;
  })

-- The pointer comparison keeps another room of the same ID.
kill_found : Option RoomRef → RoomRef → Hub → Outcome Hub
unfolding remove_room
kill_found none r hub = ok hub
kill_found (some found) r hub = if found == r then remove_room r hub else ok hub

unfoldable pub kill_room : Option RoomRef → Hub → Outcome Hub
unfolding kill_found
kill_room none hub = ok hub
kill_room (some r) hub = kill_found (lookup (hub.store r).id hub.server.rooms) r hub

-- The deferred loop of Run. Deleting during a range is safe in Go.
unfoldable pub kill_rooms : GoMap RoomRef → Hub → Outcome Hub
kill_rooms [] hub = ok hub
kill_rooms ((k, r) ∷ rest) hub = do hub' ← kill_room (some r) hub; kill_rooms rest hub'

-- The cases of the select.
pub data Event : Type 0 where
  room_in : Option RoomRef → Event
  room_out : Option RoomRef → Event
  closed : Event

-- One round of Run, with the deferred calls of a round that returns.
unfoldable pub run_server : Event → Hub → Outcome (Turn Hub)
run_server (room_in r) hub = ok (again (join_room r hub))
run_server (room_out r) hub = do hub' ← kill_room r hub; ok (again hub')
run_server closed hub = do
  (_, q) ← recv hub.server.closing
  hub' ← kill_rooms hub.server.rooms hub
  ok (returned hub')
