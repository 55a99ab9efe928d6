-- ===== src/Rest.antt =====
-- rest.go of server/server: the handlers of the RESTful API. The new room ID and the bytes of the
-- random keys, none for a failed read, are arguments; so is whether the server takes the room in time.
pub mod Creation
pub mod Routes
use vchamber.Prelude.{
  ℕ, ◌≡◌, Bool, true, false, List, [], ◌∷◌, map, Option, none, some, String, length, if◌then◌else◌,
  GoMap, close_chan, Outcome, ok, ◌>>=◌,
}
use vchamber.Wire.{Time}
use vchamber.Room.{Room, new_room}
use vchamber.Server.{RoomRef, Server, Hub}

pub record ServerInfoMsg : Type 0 where
  pub is_ok : Bool
  pub n_room : ℕ
  pub rooms : List String

pub record RoomCreatedMsg : Type 0 where
  pub is_ok : Bool
  pub room_id : String
  pub master_key : String
  pub guest_key : String

pub record RoomInfo : Type 0 where
  pub room_id : String
  pub master_key : String
  pub guest_key : String

pub record AllRoomInfoMsg : Type 0 where
  pub is_ok : Bool
  pub rooms : List RoomInfo

-- The body of a response, before it is written as JSON.
pub data Body : Type 0 where
  server_info : ServerInfoMsg → Body
  room_created : RoomCreatedMsg → Body
  all_room_info : AllRoomInfoMsg → Body
  acknowledged : Body
  failed : String → Body

pub record Response : Type 0 where
  pub body : Body
  pub status : ℕ

abbrev pub respond_with_json : Body → ℕ → Response
respond_with_json body status = record { body = body; status = status }

abbrev pub respond_with_error : String → ℕ → Response
respond_with_error reason status = respond_with_json (failed reason) status

-- The keys of a map, in one order; Go leaves the order open.
abbrev pub keys : GoMap RoomRef → List String
keys [] = []
keys ((k, r) ∷ m) = k ∷ keys m

unfoldable pub get_server_info : Hub → Response
get_server_info hub =
    respond_with_json
      (server_info
        (record { is_ok = true; n_room = length hub.server.rooms; rooms = keys hub.server.rooms }))
      200

-- closingGuard.Do(close(s.closing))
unfoldable pub destroy_server : Hub → Outcome (Hub × Response)
destroy_server hub =
    if hub.server.closing_done then ok (hub, respond_with_json acknowledged 200) else (do
      closing ← close_chan hub.server.closing
      ok (
        record hub { server = record hub.server { closing = closing; closing_done = true } },
        respond_with_json acknowledged 200,
      ))

abbrev pub room_info : Room → RoomInfo
room_info room = record {
  room_id = room.id;
  master_key = room.master_key;
  guest_key = room.guest_key;
}

infos : (RoomRef → Room) → GoMap RoomRef → List RoomInfo
infos store [] = []
infos store ((k, r) ∷ m) = room_info (store r) ∷ infos store m

unfoldable pub get_all_room_info : Hub → Response
unfolding infos
get_all_room_info hub =
    respond_with_json
      (all_room_info (record { is_ok = true; rooms = infos hub.store hub.server.rooms })) 200

-- GenerateKey of utils.go: the random bytes in URL-safe base64.
abbrev pub generate_key : (List ℕ → String) → Option (List ℕ) → Option String
generate_key encode none = none
generate_key encode (some buf) = some (encode buf)

-- The room and its two keys, or none on an error.
new_room_with_keys : String → Option String → Option String → Time → Option (Room × String × String)
new_room_with_keys id (some m_key) (some g_key) now =
    some (new_room id m_key g_key now, m_key, g_key)
new_room_with_keys id _ _ now = none

unfoldable pub new_room_with_random_keys :
    (List ℕ → String)
    → String
    → Option (List ℕ)
    → Option (List ℕ)
    → Time
    → Option (Room × String × String)
unfolding new_room_with_keys
new_room_with_random_keys encode id m_buf g_buf now =
    new_room_with_keys id (generate_key encode m_buf) (generate_key encode g_buf) now

offer_room : String → Bool → Option (Room × String × String) → Response × Option Room
offer_room rid taken none = (respond_with_error "An internal error occurred." 500, none)
offer_room rid true (some (room, mk, gk)) = (
  respond_with_json
      (room_created (record { is_ok = true; room_id = rid; master_key = mk; guest_key = gk })) 200,
  some room,
)
offer_room rid false (some (room, mk, gk)) =
    (respond_with_error "Room creation timed out." 408, none)

-- The response, and the room that the server has taken from enqRoom.
unfoldable pub create_room :
    (List ℕ → String)
    → String
    → Option (List ℕ)
    → Option (List ℕ)
    → Time
    → Bool
    → Response × Option Room
unfolding offer_room new_room_with_random_keys
create_room encode rid m_buf g_buf now taken =
    offer_room rid taken (new_room_with_random_keys encode rid m_buf g_buf now)
