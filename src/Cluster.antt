-- ===== src/Cluster.antt =====
-- The servers together: the scheduler of server/schedule/scheduler.go and the reverse proxy of
-- server/schedule/revproxy.go in front of backends of server/server, each by the name of its host.
-- The proxies' libraries are taken for what they document: a request goes to the host that its
-- Director or Backend sets, with the path and the query that it sets.
pub mod Entering
pub mod Commands
pub mod Published
use vchamber.Prelude.{
  ℕ, Bool, List, Option, none, some, String, if◌then◌else◌, str_eq, update, Outcome, ok, ◌>>=◌,
}
use vchamber.Wire.{Time}
use vchamber.Conn.Authority.{state_of}
use vchamber.Room.{Room}
use vchamber.Server.{RoomRef, Hub, room_in, run_server}
use vchamber.Handshake.{Handshake, handle_ws_client}
use vchamber.Rest as Rest
use vchamber.Rest.{Body, create_room}
use vchamber.Schedule.Storage.{Storage}
use vchamber.Schedule.Revproxy.{Url, proxy_backend}
use vchamber.Schedule.Scheduler.{Response, read}

abbrev pub Backends : Type 0
Backends = String → Hub

abbrev pub with_backend : String → Hub → Backends → Backends
with_backend h hub backends = λ j. if str_eq j h then hub else backends j

-- What a creation of a room takes from outside: the codes of keys, the new ID, the random bytes, the
-- time, and if the server takes the room before the time is out.
pub record Drawn : Type 0 where
  pub encode : List ℕ → String
  pub rid : String
  pub m_buf : Option (List ℕ)
  pub g_buf : Option (List ℕ)
  pub now : Time
  pub taken : Bool

abbrev pub drawn_room : Drawn → Rest.Response × Option Room
drawn_room d = create_room d.encode d.rid d.m_buf d.g_buf d.now d.taken

-- The server takes a new room from enqRoom; it stands at a reference that is new.
taken_in : RoomRef → Option Room → Hub → Outcome Hub
taken_in r none hub = ok hub
taken_in r (some room) hub = do
  t ← run_server (room_in (some r)) (record hub { store = update hub.store r room })
  ok (state_of t)

-- A request at a backend whose method is POST and whose path is /room.
unfoldable pub post_room : Drawn → RoomRef → Hub → Outcome Hub
unfolding taken_in
post_room d r hub = taken_in r (drawn_room d).1 hub

-- Its answer as the scheduler's proxy has it; `write` is what json.Marshal makes of the body.
abbrev pub answer_of : (Body → List ℕ) → Rest.Response → Response
answer_of write rsp = record {
  status_code = rsp.status;
  body = read (write rsp.body);
  closes = none;
  host = "";
}

module _ {S : Type 0} (store : Storage S) (query : String → String → String) where
  arrive : Backends → String → Option String → Option Url → Option (Outcome Handshake)
  arrive backends cid upgraded none = none
  arrive backends cid upgraded (some target) =
      if str_eq target.path "/ws"
      then some (
          handle_ws_client (backends target.host) (query target.raw_query "rid")
            (query target.raw_query "token") cid upgraded)
      else none

  -- A websocket request to the reverse proxy. Without a backend for it, or at a path
  -- without a websocket, it fails.
  unfoldable pub request_ws :
      S → Backends → Url → String → Option String → Option (Outcome Handshake)
  unfolding arrive
  request_ws s backends url cid upgraded =
      arrive backends cid upgraded (proxy_backend store query s url)
