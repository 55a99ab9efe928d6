-- ===== src/Backend/Starting.antt =====
-- Who comes into the test room, and when the zombie client is there.
use vchamber.Prelude.{
  ap, ◌∙◌, ◌≡◌, ◌≢◌, refl, List, [], ◌∷◌, ◌++◌, All, Option, some, String, str_eq, str_eq_iff,
  lookup, insert, make_chan, false, ok, true, Returns, arith,
}
use vchamber.Wire.{Time}
use vchamber.Conn.{client_state_master, client_state_guest}
use vchamber.Conn.Authority.{state_of}
use vchamber.Codec.{Json}
use vchamber.Client.{Client, Connected, connected, refused, turned_away, connect}
use vchamber.Room.{new_room}
use vchamber.Server.{new_server, Hub, run_server, join_room}
use vchamber.Handshake.{
  handle_ws_client, admitted, http_error, err_invalid_token, err_invalid_room_id,
  websocket_subprotocol_magic_v1,
}
use vchamber.Handshake.Access.{
  greeted, handle_ws_client-admits, handle_ws_client-refuses, handle_ws_client-finds_none,
}
use vchamber.Backend.{test_room, start_backend, Attempt, break_if_connected, start_zombie}

keys_differ : ◌≢◌ {A = String} "nobody" "iamgod"
keys_differ e =
    let same : str_eq "nobody" "iamgod" ≡ true = (str_eq_iff "nobody" "iamgod").1 e in cc

-- A started backend admits to "testroom", over the websocket subprotocol, the token "iamgod" as a
-- master and "nobody" as a guest; it refuses any other token there, and knows no other room.
pub test_room_access :
    (now : Time) (cid token roomid : String)
    → token ≢ "iamgod"
    → token ≢ "nobody"
    → roomid ≢ "testroom"
    → Returns (start_backend now) (λ t.
      let hub = state_of t in
      (handle_ws_client hub "testroom" "iamgod" cid (some websocket_subprotocol_magic_v1)
        ≡ ok (admitted 0 (greeted cid client_state_master)))
      × (handle_ws_client hub "testroom" "nobody" cid (some websocket_subprotocol_magic_v1)
          ≡ ok (admitted 0 (greeted cid client_state_guest)))
      × ((upgraded : Option String)
          → handle_ws_client hub "testroom" token cid upgraded
            ≡ ok (http_error err_invalid_token 401))
      × ((upgraded : Option String) (any : String)
          → handle_ws_client hub roomid any cid upgraded ≡ ok (http_error err_invalid_room_id 400)))
unfolding start_backend run_server join_room new_server new_room insert lookup
test_room_access now cid token roomid m g r =
    let hub : Hub = record {
      server = record { rooms = ("testroom", 0) ∷ []; closing = make_chan 0; closing_done = false };
      store = λ r. test_room now;
      started = 0 ∷ [];
    } in
    (
      handle_ws_client-admits hub "testroom" "iamgod" cid 0 client_state_master (λ e. cc)
          (λ e. cc, refl, refl),
      handle_ws_client-admits hub "testroom" "nobody" cid 0 client_state_guest (λ e. cc)
          (λ e. cc, refl, (keys_differ, refl)),
      λ upgraded.
          handle_ws_client-refuses hub "testroom" token cid 0 upgraded (λ e. cc, refl, (m, g)),
      λ upgraded any.
          handle_ws_client-finds_none hub roomid any cid upgraded
            (ground (arith, str_eq_iff "testroom" roomid)),
    )

-- An attempt that comes to no client.
abbrev pub Fails : Json → Attempt → Type 0
Fails json a = (c : Client) → connect json a.got a.now a.dialled ≢ connected c

break_if_connected_fails :
    (later : Option (Client × List Attempt)) (rest : List Attempt) (r : Connected)
    → ((c : Client) → r ≢ connected c)
    → break_if_connected later rest r ≡ later
unfolding break_if_connected
break_if_connected_fails later rest (connected c) n = absurd (n c refl)
break_if_connected_fails later rest (refused e) n = refl
break_if_connected_fails later rest (turned_away e) n = refl

-- The loop ends with the first attempt that succeeds.
pub start_zombie_first :
    (json : Json) (before after : List Attempt) (a : Attempt) (c : Client)
    → All (Fails json) before
    → connect json a.got a.now a.dialled ≡ connected c
    → start_zombie json (before ++ a ∷ after) ≡ some (c, after)
unfolding start_zombie
start_zombie_first json [] after a c h e = ap (break_if_connected (start_zombie json after) after) e
start_zombie_first json (b ∷ before) after a c (n, h) e =
    break_if_connected_fails _ _ (connect json b.got b.now b.dialled) n
    ∙ start_zombie_first json before after a c h e
