-- ===== src/Handshake/Access.antt =====
-- Who is let in.
use vchamber.Prelude.{
  ◌≡◌, ◌≢◌, refl, ◌⊎◌, inl, inr, false, Bool-cases, [], ◌∷◌, Option, none, some, String,
  if◌then◌else◌, str_eq, str_eq_iff, str_eq_ne, lookup, send, offer, ok, blocked, Bool, true,
  Returns, Returns-eq, arith, ap, ◌∙◌,
}
use vchamber.Conn.{
  ClientState, client_state_unauthorised, client_state_guest, client_state_master, ClientConn,
  new_client_conn,
}
use vchamber.Room.{Room, check_master_key, check_guest_key}
use vchamber.Server.{RoomRef, Hub}
use vchamber.Handshake.{
  Handshake, http_error, upgrade_failed, unsupported_subprotocol, admitted, authorise,
  hello_message, websocket_subprotocol_magic_v1, err_invalid_room_id, err_invalid_token,
  handle_ws_client, enter_room, serve_ws_client, greet, connect, check_token, check_room, find_room,
}

-- What a token stands for in a room: the master key comes first.
abbrev pub Grants : Room → String → ClientState → Type 0
Grants room token client_state_master = token ≡ room.master_key
Grants room token client_state_guest = (token ≢ room.master_key) × (token ≡ room.guest_key)
Grants room token client_state_unauthorised = (token ≢ room.master_key) × (token ≢ room.guest_key)

authorise-Grants : (room : Room) (token : String) → Grants room token (authorise room token)
unfolding authorise check_master_key check_guest_key
authorise-Grants room token =
    ground (arith, str_eq_iff token room.master_key, str_eq_iff token room.guest_key)

-- A new client of a state, greeted.
abbrev pub greeted : String → ClientState → ClientConn
greeted cid state = record {
  id = cid;
  recv_queue = record { buffer = []; capacity = 32; closed = false };
  send_queue = record { buffer = hello_message state ∷ []; capacity = 32; closed = false };
  closing = record { buffer = []; capacity = 0; closed = false };
  state = state;
}

abbrev pub is_admitted : Handshake → Bool
is_admitted (admitted r c) = true
is_admitted _ = false

-- What a request is owed: the rules that the handshake has to follow, apart from how it does so.
module _ (hub : Hub) (roomid token cid : String) (upgraded : Option String) where
  -- The room that is asked for, and a right that the token gives in it.
  abbrev pub HasRight : RoomRef → ClientState → Type 0
  HasRight r state =
      (roomid ≢ "") × (lookup roomid hub.server.rooms ≡ some r) × Grants (hub.store r) token state

  pub data Decides : Handshake → Type 0 where
    no_room :
        (roomid ≡ "") ⊎ (lookup roomid hub.server.rooms ≡ none)
        → Decides (http_error err_invalid_room_id 400)
    no_right :
        (r : RoomRef)
        → HasRight r client_state_unauthorised
        → Decides (http_error err_invalid_token 401)
    no_upgrade :
        (r : RoomRef) (state : ClientState)
        → state ≢ client_state_unauthorised
        → HasRight r state
        → upgraded ≡ none
        → Decides upgrade_failed
    other_protocol :
        (r : RoomRef) (state : ClientState) (s : String)
        → state ≢ client_state_unauthorised
        → HasRight r state
        → upgraded ≡ some s
        → s ≢ websocket_subprotocol_magic_v1
        → Decides unsupported_subprotocol
    let_in :
        (r : RoomRef) (state : ClientState)
        → state ≢ client_state_unauthorised
        → HasRight r state
        → upgraded ≡ some websocket_subprotocol_magic_v1
        → Decides (admitted r (greeted cid state))

  greet-ok : (state : ClientState) → greet cid state ≡ ok (greeted cid state)
  unfolding greet new_client_conn send
  greet-ok state = refl

  connect-Decides :
      (o : Option String) (r : RoomRef) (state : ClientState)
      → upgraded ≡ o
      → state ≢ client_state_unauthorised
      → HasRight r state
      → Returns (connect r cid state o) Decides
  unfolding connect
  connect-Decides none r state e n h = no_upgrade r state n h e
  connect-Decides (some s) r state e n h =
      elim (Bool-cases (str_eq s websocket_subprotocol_magic_v1)) [
        | inr other ↦
            rw (other, if◌then◌else◌)
              (other_protocol r state s n h e
                (λ same. ground (arith, str_eq_iff s websocket_subprotocol_magic_v1)))
        | inl magic ↦
            rw (magic, if◌then◌else◌)
              (rw (greet-ok state) (
                let_in r state n h
                  (e ∙ ap some ((str_eq_iff s websocket_subprotocol_magic_v1).0 magic))))
      ]

  check_token-Decides :
      (r : RoomRef) (state : ClientState)
      → HasRight r state
      → Returns (check_token r cid state upgraded) Decides
  unfolding check_token
  check_token-Decides r client_state_unauthorised h = no_right r h
  check_token-Decides r client_state_guest h =
      connect-Decides upgraded r client_state_guest refl (λ e. cc) h
  check_token-Decides r client_state_master h =
      connect-Decides upgraded r client_state_master refl (λ e. cc) h

  check_room-Decides :
      (o : Option RoomRef)
      → find_room hub roomid ≡ o
      → Returns (check_room hub o token cid upgraded) Decides
  unfolding check_room find_room
  check_room-Decides none e = no_room (ground (arith, str_eq_iff "" roomid))
  check_room-Decides (some r) e =
      check_token-Decides r (authorise (hub.store r) token)
        (ground (arith, str_eq_iff "" roomid), ground arith, authorise-Grants (hub.store r) token)

  -- The handshake up to its last send.
  pub handle_ws_client-Decides : Returns (handle_ws_client hub roomid token cid upgraded) Decides
  unfolding handle_ws_client
  handle_ws_client-Decides = check_room-Decides (find_room hub roomid) refl

  -- The last send waits exactly if a client is let in and the manager does not receive it.
  enter-Decides :
      (later : Hub) (h : Handshake)
      → ((r : RoomRef)
          → lookup roomid hub.server.rooms ≡ some r
          → (later.store r).enq_client.closed ≡ false)
      → Decides h
      → (enter_room later true h ≡ ok h)
        × (enter_room later false h ≡ (if is_admitted h then blocked else ok h))
  unfolding enter_room offer
  enter-Decides later _ o (no_room e) = (refl, refl)
  enter-Decides later _ o (no_right r h) = (refl, refl)
  enter-Decides later _ o (no_upgrade r state n h e) = (refl, refl)
  enter-Decides later _ o (other_protocol r state s n h e m) = (refl, refl)
  enter-Decides later _ o (let_in r state n h e) = rw (o r h.1, if◌then◌else◌) (refl, refl)

  -- While the enqClient of the room that is asked for is open, a handshake comes to an end whenever
  -- the room's manager receives the client, and its outcome is as the rules say: no connection
  -- without a room, a key of it and the subprotocol; the master key makes a master, and the guest
  -- key, where it is another, a guest; the first message in a client's queue is a hello that tells
  -- it which. If the manager does not receive the client, the outcome is the same but for one that
  -- would be let in, which waits.
  pub serve_ws_client-Decides :
      (later : Hub)
      → ((r : RoomRef)
          → lookup roomid hub.server.rooms ≡ some r
          → (later.store r).enq_client.closed ≡ false)
      → (h : Handshake) × Decides h
        × (serve_ws_client hub later true roomid token cid upgraded ≡ ok h)
        × (serve_ws_client hub later false roomid token cid upgraded
            ≡ (if is_admitted h then blocked else ok h))
  unfolding serve_ws_client
  serve_ws_client-Decides later o =
      let (h, e, d) =
        Returns-eq (handle_ws_client hub roomid token cid upgraded) Decides
          handle_ws_client-Decides in
      (h, d, rw e (enter-Decides later h o d).0, rw e (enter-Decides later h o d).1)

Grants-authorise :
    (room : Room) (token : String) (state : ClientState)
    → Grants room token state
    → authorise room token ≡ state
unfolding authorise check_master_key check_guest_key
Grants-authorise room token client_state_master g = ground (arith, str_eq_iff token room.master_key)
Grants-authorise room token client_state_guest g =
    ground (arith, str_eq_iff token room.master_key, str_eq_iff token room.guest_key)
Grants-authorise room token client_state_unauthorised g =
    ground (arith, str_eq_iff token room.master_key, str_eq_iff token room.guest_key)

module _ (hub : Hub) (roomid token cid : String) where
  admit :
      (r : RoomRef) (state : ClientState)
      → state ≢ client_state_unauthorised
      → check_token r cid state (some websocket_subprotocol_magic_v1)
        ≡ ok (admitted r (greeted cid state))
  unfolding check_token connect greet new_client_conn send
  admit r client_state_unauthorised n = absurd (n refl)
  admit r client_state_guest n = refl
  admit r client_state_master n = refl

  -- Whoever has a right in a room and speaks the subprotocol is let in.
  pub handle_ws_client-admits :
      (r : RoomRef) (state : ClientState)
      → state ≢ client_state_unauthorised
      → HasRight hub roomid token cid none r state
      → handle_ws_client hub roomid token cid (some websocket_subprotocol_magic_v1)
        ≡ ok (admitted r (greeted cid state))
  unfolding handle_ws_client
  handle_ws_client-admits r state n (named, bound, g) =
      rw found (rw (Grants-authorise (hub.store r) token state g) (admit r state n))
    where
      found : find_room hub roomid ≡ some r
      found = ground (arith, str_eq_iff "" roomid)

  turn_away :
      (r : RoomRef) (state : ClientState) (s : String)
      → state ≢ client_state_unauthorised
      → s ≢ websocket_subprotocol_magic_v1
      → check_token r cid state (some s) ≡ ok unsupported_subprotocol
  unfolding check_token connect
  turn_away r client_state_unauthorised s n o = absurd (n refl)
  turn_away r client_state_guest s n o = rw (str_eq_ne s websocket_subprotocol_magic_v1 o) refl
  turn_away r client_state_master s n o = rw (str_eq_ne s websocket_subprotocol_magic_v1 o) refl

  -- One who does not speak it is turned away.
  pub handle_ws_client-turns_away :
      (r : RoomRef) (state : ClientState) (s : String)
      → state ≢ client_state_unauthorised
      → HasRight hub roomid token cid none r state
      → s ≢ websocket_subprotocol_magic_v1
      → handle_ws_client hub roomid token cid (some s) ≡ ok unsupported_subprotocol
  unfolding handle_ws_client
  handle_ws_client-turns_away r state s n (named, bound, g) o =
      rw found (rw (Grants-authorise (hub.store r) token state g) (turn_away r state s n o))
    where
      found : find_room hub roomid ≡ some r
      found = ground (arith, str_eq_iff "" roomid)

  -- Whoever has no key of the room is refused, ...
  pub handle_ws_client-refuses :
      (r : RoomRef) (upgraded : Option String)
      → HasRight hub roomid token cid none r client_state_unauthorised
      → handle_ws_client hub roomid token cid upgraded ≡ ok (http_error err_invalid_token 401)
  unfolding handle_ws_client check_room check_token
  handle_ws_client-refuses r upgraded (named, bound, g) =
      rw found (rw (Grants-authorise (hub.store r) token client_state_unauthorised g) refl)
    where
      found : find_room hub roomid ≡ some r
      found = ground (arith, str_eq_iff "" roomid)

  -- ... and so is one who asks for a room that is not there.
  pub handle_ws_client-finds_none :
      (upgraded : Option String)
      → lookup roomid hub.server.rooms ≡ none
      → handle_ws_client hub roomid token cid upgraded ≡ ok (http_error err_invalid_room_id 400)
  unfolding handle_ws_client check_room
  handle_ws_client-finds_none upgraded absent = rw found refl
    where
      found : find_room hub roomid ≡ none
      found = ground (arith, str_eq_iff "" roomid)
