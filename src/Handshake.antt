-- ===== src/Handshake.antt =====
-- handleWSClient of server/server/wsserver.go: who gets a connection to a room. What the request
-- holds, the new ID and the subprotocol that the upgrade settles on (none if it fails) are arguments.
pub mod Access
pub mod Joining
pub mod Negotiating
use vchamber.Prelude.{
  ℕ, ◌≡◌, Bool, true, false, List, [], ◌∷◌, Option, none, some, String, if◌then◌else◌, str_eq,
  lookup, send, offer, Outcome, ok, ◌>>=◌,
}
use vchamber.Wire.{Message, message_type_hello, hello, HelloMessage}
use vchamber.Conn.{
  ClientState, client_state_unauthorised, client_state_guest, client_state_master, ClientConn,
  new_client_conn,
}
use vchamber.Room.{Room, check_master_key, check_guest_key}
use vchamber.Server.{RoomRef, Server, Hub}

abbrev pub websocket_subprotocol_magic_v1 : String
websocket_subprotocol_magic_v1 = "vchamber_v1"

abbrev pub err_invalid_room_id : String
err_invalid_room_id = "Error: Invalid Room ID"

abbrev pub err_invalid_token : String
err_invalid_token = "Error: Invalid token"

-- How a handshake ends: an HTTP error, a failed upgrade, a close frame, or a client that the
-- goroutine sends to the room's enqClient.
pub data Handshake : Type 0 where
  http_error : String → ℕ → Handshake
  upgrade_failed : Handshake
  unsupported_subprotocol : Handshake
  admitted : RoomRef → ClientConn → Handshake

find_room : Hub → String → Option RoomRef
find_room hub roomid = if str_eq "" roomid then none else lookup roomid hub.server.rooms

unfoldable pub authorise : Room → String → ClientState
authorise room token =
    if check_master_key room token
    then client_state_master
    else if check_guest_key room token
    then client_state_guest
    else client_state_unauthorised

abbrev pub client_type : ClientState → String
client_type client_state_master = "master"
client_type client_state_guest = "guest"
client_type client_state_unauthorised = ""

abbrev pub hello_message : ClientState → Message
hello_message state = record {
  sender = "";
  received_at = 0;
  type = message_type_hello;
  payload = hello (record { client_type = client_type state });
}

-- The new client, with a hello as its first message.
greet : String → ClientState → Outcome ClientConn
greet cid state = do
  let client = new_client_conn cid state
  q ← send (hello_message state) client.send_queue
  ok (record client { send_queue = q })

connect : RoomRef → String → ClientState → Option String → Outcome Handshake
unfolding greet
connect room cid state none = ok upgrade_failed
connect room cid state (some subprotocol) =
    if str_eq subprotocol websocket_subprotocol_magic_v1
    then (do client ← greet cid state; ok (admitted room client))
    else ok unsupported_subprotocol

check_token : RoomRef → String → ClientState → Option String → Outcome Handshake
unfolding connect
check_token room cid client_state_unauthorised upgraded = ok (http_error err_invalid_token 401)
check_token room cid client_state_guest upgraded = connect room cid client_state_guest upgraded
check_token room cid client_state_master upgraded = connect room cid client_state_master upgraded

check_room : Hub → Option RoomRef → String → String → Option String → Outcome Handshake
unfolding check_token
check_room hub none token cid upgraded = ok (http_error err_invalid_room_id 400)
check_room hub (some room) token cid upgraded =
    check_token room cid (authorise (hub.store room) token) upgraded

-- handleWSClient up to its last send.
unfoldable pub handle_ws_client : Hub → String → String → String → Option String → Outcome Handshake
unfolding check_room find_room
handle_ws_client hub roomid token cid upgraded =
    check_room hub (find_room hub roomid) token cid upgraded

-- room.enqClient <- client. The server may have changed since the room was found.
enter_room : Hub → Bool → Handshake → Outcome Handshake
enter_room later taken (http_error e status) = ok (http_error e status)
enter_room later taken upgrade_failed = ok upgrade_failed
enter_room later taken unsupported_subprotocol = ok unsupported_subprotocol
enter_room later taken (admitted r c) = do
  _ ← offer taken (later.store r).enq_client
  ok (admitted r c)

-- The whole of handleWSClient; `taken` says whether the room's manager receives the client.
pub serve_ws_client :
    Hub → Hub → Bool → String → String → String → Option String → Outcome Handshake
unfolding enter_room
serve_ws_client hub later taken roomid token cid upgraded = do
  h ← handle_ws_client hub roomid token cid upgraded
  enter_room later taken h
