-- ===== src/Rest/Creation.antt =====
-- What the API promises.
use vchamber.Prelude.{
  ℕ, suc, ◌≡◌, ◌≢◌, refl, ◌∙◌, ap, inl, inr, Bool, true, false, List, [], ◌∷◌, Option, none, some,
  Bool-cases, String, length, if◌then◌else◌, str_eq, str_eq_iff, str_eq_self, str-cases, GoMap,
  lookup, close_chan, ok, Returns, arith,
}
use vchamber.Wire.{Time}
use vchamber.Conn.{client_state_master, client_state_guest}
use vchamber.Room.{Room, new_room}
use vchamber.Server.{RoomRef, Hub, join_room, room_in, closed, run_server}
use vchamber.Server.Closing.{closed_ends, joined_bound, joined_store}
use vchamber.Server.Invariant.{Inv}
use vchamber.Conn.Authority.{state_of}
use vchamber.Handshake.{admitted, handle_ws_client, websocket_subprotocol_magic_v1}
use vchamber.Handshake.Access.{greeted, handle_ws_client-admits}
use vchamber.Rest.{
  acknowledged, RoomCreatedMsg, room_created, Response, respond_with_json, server_info,
  ServerInfoMsg, keys, create_room, get_server_info, destroy_server,
}

-- A room that was made and taken: the response tells its ID and its two keys.
created :
    (encode : List ℕ → String) (rid : String) (m_buf g_buf : Option (List ℕ)) (now : Time)
    (taken : Bool) {room : Room} {r : Response}
    → create_room encode rid m_buf g_buf now taken ≡ (r, some room)
    → (room.id ≡ rid)
      × (r
          ≡ respond_with_json
              (room_created (record {
                is_ok = true;
                room_id = rid;
                master_key = room.master_key;
                guest_key = room.guest_key;
              }))
              200)
unfolding create_room new_room
created encode rid m_buf g_buf now taken e = ground arith

-- The keys in the response to a room's creation open that room, if its ID is not empty: once the
-- server has taken it in, the master key lets a client in as a master, and the guest key as a
-- guest, unless both are equal.
pub created_keys_admit :
    (encode : List ℕ → String) (rid : String) (m_buf g_buf : Option (List ℕ)) (now : Time)
    (taken : Bool) (hub : Hub) (r : RoomRef) (cid : String) {room : Room} {msg : RoomCreatedMsg}
    → create_room encode rid m_buf g_buf now taken
      ≡ (respond_with_json (room_created msg) 200, some room)
    → hub.store r ≡ room
    → rid ≢ ""
    → Returns (run_server (room_in (some r)) hub) (λ t.
      let hub' = state_of t in
      (handle_ws_client hub' msg.room_id msg.master_key cid (some websocket_subprotocol_magic_v1)
        ≡ ok (admitted r (greeted cid client_state_master)))
      × (handle_ws_client hub' msg.room_id msg.guest_key cid (some websocket_subprotocol_magic_v1)
          ≡ ok (
              admitted r (
                greeted cid (
                  if str_eq msg.guest_key msg.master_key
                  then client_state_master
                  else client_state_guest)))))
unfolding run_server
created_keys_admit encode rid m_buf g_buf now taken hub r cid {room} {msg} e same named =
    let (made, told) = created encode rid m_buf g_buf now taken e in
    let stored : (join_room (some r) hub).store r ≡ room = joined_store r hub ∙ same in
    let named' : msg.room_id ≢ "" = λ c. named (ground arith) in
    let bound : lookup msg.room_id (join_room (some r) hub).server.rooms ≡ some r =
      ground (arith, joined_bound r hub) in
    (
      handle_ws_client-admits (join_room (some r) hub) msg.room_id msg.master_key cid r
          client_state_master (λ c. cc) (named', bound, ground arith),
      elim (str-cases msg.guest_key msg.master_key) [
        | inl same_key ↦
            rw (same_key, str_eq_self msg.master_key)
              (handle_ws_client-admits (join_room (some r) hub) msg.room_id msg.master_key cid r
                client_state_master (λ c. cc) (named', bound, ground arith))
        | inr other ↦ rw other (
            handle_ws_client-admits (join_room (some r) hub) msg.room_id msg.guest_key cid r
              client_state_guest (λ c. cc)
              (
                named',
                bound,
                (λ clash. ground (arith, str_eq_iff msg.guest_key msg.master_key), ground arith),
              ))
      ],
    )

abbrev pub has : String → List String → Bool
has k [] = false
has k (j ∷ js) = if str_eq j k then true else has k js

abbrev pub is_some {ℓ} : {A : Type ℓ} → Option A → Bool
is_some none = false
is_some (some a) = true

has-keys : (k : String) (m : GoMap RoomRef) → has k (keys m) ≡ is_some (lookup k m)
unfolding lookup
has-keys k [] = refl
has-keys k ((j, r) ∷ m) = ground (arith, has-keys k m)

length-keys : (m : GoMap RoomRef) → length (keys m) ≡ length m
length-keys [] = refl
length-keys ((j, r) ∷ m) = ap suc (length-keys m)

destroyed_again :
    (hub : Hub)
    → hub.server.closing_done ≡ true
    → destroy_server hub ≡ ok (hub, respond_with_json acknowledged 200)
unfolding destroy_server
destroyed_again hub h = ground arith

-- The server after close(s.closing).
abbrev shut : Hub → Hub
shut hub = record hub {
  server = record hub.server {
    closing = record hub.server.closing { closed = true };
    closing_done = true;
  };
}

destroyed_first :
    (hub : Hub)
    → hub.server.closing_done ≡ false
    → hub.server.closing.closed ≡ false
    → destroy_server hub ≡ ok (shut hub, respond_with_json acknowledged 200)
unfolding destroy_server close_chan
destroyed_first hub h k = ground arith

shut-Inv : (hub : Hub) → Inv hub → Inv (shut hub)
shut-Inv hub v = record { distinct = v.distinct; keyed = v.keyed; live = v.live }

-- GET /server tells the rooms exactly: their number, and an ID if and only if it is bound.
server_info_exact :
    (hub : Hub)
    → (info : ServerInfoMsg) × (get_server_info hub ≡ respond_with_json (server_info info) 200)
      × (length info.rooms ≡ info.n_room)
      × (info.n_room ≡ length hub.server.rooms)
      × ((k : String) → has k info.rooms ≡ is_some (lookup k hub.server.rooms))
unfolding get_server_info
server_info_exact hub = (
  record { is_ok = true; n_room = length hub.server.rooms; rooms = keys hub.server.rooms },
  refl,
  length-keys hub.server.rooms,
  refl,
  λ k. has-keys k hub.server.rooms,
)

-- DELETE /server may come any number of times at a well-formed server, whose channel is closed
-- exactly if the guard says so, and holds nothing: the first request closes the channel, a later
-- one changes nothing, none panics, and the event loop can end then.
pub destroy_server_once :
    (hub : Hub)
    → hub.server.closing.closed ≡ hub.server.closing_done
    → hub.server.closing.buffer ≡ []
    → Inv hub
    → Returns (destroy_server hub) (λ s.
      (s.0.server.closing.closed ≡ true)
      × (s.0.server.rooms ≡ hub.server.rooms)
      × (destroy_server s.0 ≡ ok s)
      × Returns (run_server closed s.0) (λ t. (state_of t).server.rooms ≡ []))
destroy_server_once hub guard empty v = elim (Bool-cases hub.server.closing_done) [
  | inl done ↦
      rw (destroyed_again hub done)
        (guard ∙ done, refl, destroyed_again hub done, closed_ends hub empty (guard ∙ done) v)
  | inr first ↦ rw (destroyed_first hub first (guard ∙ first)) (
    refl,
    refl,
    destroyed_again (shut hub) refl,
    closed_ends (shut hub) empty refl (shut-Inv hub v),
  )
]
