-- ===== src/Tests/Servers.antt =====
-- A server with one room, and who comes into it.
use vchamber.Prelude.{
  Option, ◌≡◌, refl, true, false, some, [], ◌∷◌, String, str_eq, str_eq_iff, lookup, make_chan,
  arith, ok, blocked, Returns, Safely, if◌then◌else◌,
}
use vchamber.Playback.{get_current_state_message}
use vchamber.Playback.Laws.{whole_ops}
use vchamber.Conn.{client_state_master, client_state_guest}
use vchamber.Conn.Authority.{state_of}
use vchamber.Room.{Room, new_room}
use vchamber.Manager.{start_manager, on_client_in}
use vchamber.Server.{Hub, run_server, closed}
use vchamber.Server.Invariant.{Inv}
use vchamber.Server.Closing.{Kept, run_server-Kept}
use vchamber.Handshake.{
  Handshake, serve_ws_client, http_error, err_invalid_token, err_invalid_room_id, handle_ws_client,
  admitted, hello_message, websocket_subprotocol_magic_v1,
}
use vchamber.Handshake.Access.{
  Decides, greeted, is_admitted, serve_ws_client-Decides, handle_ws_client-admits,
}
use vchamber.Handshake.Joining.{admitted_joins}
use vchamber.Backend.{start_backend}
use vchamber.Backend.Starting.{test_room_access}
use vchamber.Rest.{destroy_server}
use vchamber.Rest.Creation.{destroy_server_once}
use vchamber.Tests.Data.{at, fresh_manager, fresh_manager-Inv}

abbrev pub room : Room
room = new_room "room" "master key" "guest key" 0

abbrev pub hub : Hub
hub = record {
  server = record { rooms = ("room", 0) ∷ []; closing = make_chan 0; closing_done = false };
  store = λ r. room;
  started = 0 ∷ [];
}

pub hub-Inv : Inv hub
unfolding lookup new_room
hub-Inv = record {
  distinct = (refl, tt);
  keyed = λ k r h. ground (arith, name k);
  live = λ k r h. (refl, refl, refl, refl);
}
  where
    name : (k : String) → str_eq "room" k ≡ true → "room" ≡ k
    name k = ground (arith, str_eq_iff "room" k)

run_server-Kept_example : Safely (run_server closed hub) (Kept hub)
run_server-Kept_example = run_server-Kept closed hub tt hub-Inv

serve_ws_client-Decides_example :
    (h : Handshake) × Decides hub "room" "guest key" "g" (some "vchamber_v1") h
    × (serve_ws_client hub hub true "room" "guest key" "g" (some "vchamber_v1") ≡ ok h)
    × (serve_ws_client hub hub false "room" "guest key" "g" (some "vchamber_v1")
        ≡ (if is_admitted h then blocked else ok h))
unfolding new_room
serve_ws_client-Decides_example =
    serve_ws_client-Decides hub "room" "guest key" "g" (some "vchamber_v1") hub λ r e. refl

pub master_admitted :
    handle_ws_client hub "room" "master key" "m" (some "vchamber_v1")
    ≡ ok (admitted 0 (greeted "m" client_state_master))
unfolding new_room lookup
master_admitted =
    handle_ws_client-admits hub "room" "master key" "m" 0 client_state_master (λ e. cc)
      (λ e. cc, refl, refl)

admitted_joins_example : Returns (on_client_in whole_ops (at 5) (some 0) fresh_manager) (λ mg'.
    (lookup "m" mg'.chamber.room.clients ≡ some 0)
    × ((mg'.chamber.conns 0).send_queue.buffer
        ≡ hello_message client_state_master
          ∷ (get_current_state_message whole_ops (at 5).shown fresh_manager.chamber.room.state).1
          ∷ []))
unfolding start_manager new_room lookup
admitted_joins_example =
    admitted_joins hub "room" "master key" "m" (some "vchamber_v1") whole_ops (at 5) fresh_manager 0
      master_admitted refl fresh_manager-Inv refl

destroy_server_once_example : Returns (destroy_server hub) (λ s.
    (s.0.server.closing.closed ≡ true)
    × (s.0.server.rooms ≡ hub.server.rooms)
    × (destroy_server s.0 ≡ ok s)
    × Returns (run_server closed s.0) (λ t. (state_of t).server.rooms ≡ []))
destroy_server_once_example = destroy_server_once hub refl refl hub-Inv

test_room_access_example : Returns (start_backend 0) (λ t.
    let hub' = state_of t in
    (handle_ws_client hub' "testroom" "iamgod" "c" (some websocket_subprotocol_magic_v1)
      ≡ ok (admitted 0 (greeted "c" client_state_master)))
    × (handle_ws_client hub' "testroom" "nobody" "c" (some websocket_subprotocol_magic_v1)
        ≡ ok (admitted 0 (greeted "c" client_state_guest)))
    × ((upgraded : Option String)
        → handle_ws_client hub' "testroom" "x" "c" upgraded ≡ ok (http_error err_invalid_token 401))
    × ((upgraded : Option String) (any : String)
        → handle_ws_client hub' "y" any "c" upgraded ≡ ok (http_error err_invalid_room_id 400)))
test_room_access_example = test_room_access 0 "c" "x" "y" (λ e. cc) (λ e. cc) (λ e. cc)
