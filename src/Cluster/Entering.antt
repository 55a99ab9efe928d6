-- ===== src/Cluster/Entering.antt =====
-- A room that is made through the scheduler, and entered through the reverse proxy.
use vchamber.Prelude.{
  ℕ, ◌≡◌, ◌≢◌, refl, true, List, Option, none, some, String, if◌then◌else◌, str_eq, str_eq_self,
  update, update_self, ok, Returns, Returns-map, arith,
}
use vchamber.Conn.{ClientState, client_state_master, client_state_guest}
use vchamber.Server.{RoomRef, Hub, run_server}
use vchamber.Room.{new_room}
use vchamber.Handshake.{Handshake, handle_ws_client, admitted, websocket_subprotocol_magic_v1}
use vchamber.Handshake.Access.{greeted}
use vchamber.Rest.{Body, room_created, RoomCreatedMsg, create_room, respond_with_json}
use vchamber.Rest.Creation.{created_keys_admit}
use vchamber.Schedule.Storage.{Storage, StorageLaws}
use vchamber.Schedule.Revproxy.{Url, backend_ws_scheme, proxy_backend}
use vchamber.Schedule.Scheduler.{HostPool, Scheduler, Request, read, get_proxy}
use vchamber.Schedule.Creating.{scheduled_room_routed}
use vchamber.Cluster.{Backends, with_backend, Drawn, drawn_room, post_room, answer_of, request_ws}

-- A client with a token is let into a room.
abbrev pub Admits :
    {S : Type 0}
    → Storage S
    → (String → String → String)
    → S
    → Backends
    → RoomRef
    → String
    → String
    → ClientState
    → Type 0
Admits store query s backends r rid token state =
    (url : Url) (cid : String)
    → url.path ≡ "/ws"
    → query url.raw_query "rid" ≡ rid
    → query url.raw_query "token" ≡ token
    → request_ws store query s backends url cid (some websocket_subprotocol_magic_v1)
      ≡ some (ok (admitted r (greeted cid state)))

-- What the creation makes, if no random byte is missing and the server takes the room.
abbrev message_of : Drawn → List ℕ → List ℕ → RoomCreatedMsg
message_of d mk gk = record {
  is_ok = true;
  room_id = d.rid;
  master_key = d.encode mk;
  guest_key = d.encode gk;
}

abbrev pub IsDrawn : Drawn → List ℕ → List ℕ → Type 0
IsDrawn d mk gk = (d.m_buf ≡ some mk) × (d.g_buf ≡ some gk) × (d.taken ≡ true)

drawn_room_lem :
    (d : Drawn) (mk gk : List ℕ)
    → IsDrawn d mk gk
    → drawn_room d ≡ (
      respond_with_json (room_created (message_of d mk gk)) 200,
      some (new_room d.rid (d.encode mk) (d.encode gk) d.now),
    )
unfolding create_room
drawn_room_lem d mk gk (em, eg, et) = rw (em, eg, et) refl

-- The keys of the new room, at its server.
abbrev Opens : RoomRef → RoomCreatedMsg → Hub → Type 0
Opens r m hub =
    (cid : String)
    → (handle_ws_client hub m.room_id m.master_key cid (some websocket_subprotocol_magic_v1)
        ≡ ok (admitted r (greeted cid client_state_master)))
      × (handle_ws_client hub m.room_id m.guest_key cid (some websocket_subprotocol_magic_v1)
          ≡ ok (
              admitted r (
                greeted cid (
                  if str_eq m.guest_key m.master_key
                  then client_state_master
                  else client_state_guest))))

post_room-Opens :
    (d : Drawn) (mk gk : List ℕ) (r : RoomRef) (hub : Hub)
    → IsDrawn d mk gk
    → d.rid ≢ ""
    → Returns (post_room d r hub) (Opens r (message_of d mk gk))
unfolding post_room run_server
post_room-Opens d mk gk r hub drawn named = rw (drawn_room_lem d mk gk drawn) (λ cid.
    created_keys_admit d.encode d.rid d.m_buf d.g_buf d.now d.taken
      (record hub { store = update hub.store r (new_room d.rid (d.encode mk) (d.encode gk) d.now) })
      r cid (drawn_room_lem d mk gk drawn) (update_self hub.store r _) named)

entered :
    {S : Type 0} (store : Storage S) (query : String → String → String) (s : S)
    (backends : Backends) (url : Url) (h : String) (hub : Hub) (rid token cid : String)
    (x : Handshake)
    → proxy_backend store query s url
      ≡ some (record backend_ws_scheme {
        host = h;
        fragment = url.fragment;
        path = url.path;
        raw_query = url.raw_query;
      })
    → handle_ws_client hub rid token cid (some websocket_subprotocol_magic_v1) ≡ ok x
    → url.path ≡ "/ws"
    → query url.raw_query "rid" ≡ rid
    → query url.raw_query "token" ≡ token
    → request_ws store query s
        (with_backend h hub backends)
        url
        cid
        (some websocket_subprotocol_magic_v1)
      ≡ some (ok x)
unfolding request_ws
entered store query s backends url h hub rid token cid x routed let_in w r t =
    rw routed (rw (str_eq_self h, w, r, t) (rw let_in refl))

module _ {P S : Type 0} (pools : HostPool P) (store : Storage S) (query : String → String → String)
    (write : Body → List ℕ) (decode : List ℕ → Option RoomCreatedMsg) where
  -- A room whose creation goes through the scheduler can be entered through the reverse proxy.
  abbrev pub IsEntered : Drawn → Request → Scheduler P → S → Backends → RoomRef → Type 0
  IsEntered d req sch s backends r =
      let h = (pools.get sch.pool).0 in
      let (s', sch', rsp, err) =
        get_proxy pools store decode (λ q. answer_of write (drawn_room d).0) req sch s in
      (err ≡ none)
      × (rsp.body ≡ read (write (drawn_room d).0.body))
      × ((m : RoomCreatedMsg) × (decode (write (drawn_room d).0.body) ≡ some m)
          × Returns (post_room d r (backends h)) (λ hub.
            Admits store query s' (with_backend h hub backends) r m.room_id m.master_key
              client_state_master
            × Admits store query s' (with_backend h hub backends) r m.room_id m.guest_key (
                if str_eq m.guest_key m.master_key
                then client_state_master
                else client_state_guest)))

module _ {P S : Type 0} (pools : HostPool P) (store : Storage S) (laws : StorageLaws store)
    (query : String → String → String) (write : Body → List ℕ)
    (decode : List ℕ → Option RoomCreatedMsg)
    (reads : (m : RoomCreatedMsg) → decode (write (room_created m)) ≡ some m) where
  pub created_room-IsEntered :
      (d : Drawn) (mk gk : List ℕ) (req : Request) (sch : Scheduler P) (s : S) (backends : Backends)
      (r : RoomRef)
      → IsDrawn d mk gk
      → d.rid ≢ ""
      → (pools.get sch.pool).0 ≢ ""
      → (store.set s d.rid (pools.get sch.pool).0).1 ≡ none
      → IsEntered pools store query write decode d req sch s backends r
  created_room-IsEntered d mk gk req sch s backends r drawn named host taken =
      let h = (pools.get sch.pool).0 in
      let m = message_of d mk gk in
      let (body, err, moved, routed) =
        scheduled_room_routed pools store laws query decode
          (λ q. answer_of write (respond_with_json (room_created m) 200)) req sch s
          (write (room_created m)) m refl refl refl (reads m) taken named host in
      rw (drawn_room_lem d mk gk drawn) (
        err,
        body,
        (
          m,
          reads m,
          Returns-map (post_room d r (backends h)) _ _
              (post_room-Opens d mk gk r (backends h) drawn named)
              (λ hub opens.
                let (s', sch', rsp, e) =
                  get_proxy pools store decode
                    (λ q. answer_of write (respond_with_json (room_created m) 200)) req sch s in
                let arrives : (url : Url)
                    → query url.raw_query "rid" ≡ m.room_id
                    → proxy_backend store query s' url
                      ≡ some (record backend_ws_scheme {
                        host = h;
                        fragment = url.fragment;
                        path = url.path;
                        raw_query = url.raw_query;
                      }) =
                  λ url q. ground (arith, routed url, q, str_eq_self m.room_id) in
                (
                  λ url cid w q t.
                      entered store query s' backends url h hub m.room_id m.master_key cid _
                        (arrives url q) (opens cid).0 w q t,
                  λ url cid w q t.
                      entered store query s' backends url h hub m.room_id m.guest_key cid _
                        (arrives url q) (opens cid).1 w q t,
                )),
        ),
      )
