-- ===== src/Schedule/Creating.antt =====
-- A room that is made through the scheduler.
use vchamber.Prelude.{
  ℕ, ◌≡◌, ◌≢◌, refl, List, Option, none, some, String, if◌then◌else◌, str_eq, ap, ◌∙◌,
}
use vchamber.Rest.{RoomCreatedMsg}
use vchamber.Schedule.Storage.{Storage, StorageLaws}
use vchamber.Schedule.Revproxy.{Url, backend_ws_scheme, proxy_backend}
use vchamber.Schedule.Scheduler.{
  HostPool, Scheduler, Request, Response, read, next_backend, proxy_director, get_proxy,
}
use vchamber.Schedule.Routing.{created_room_routed}

-- A request for a room's creation goes through the scheduler to the next host of its pool. If that
-- backend answers that it made the room, and the registry takes the entry, the caller has the answer
-- with its body, the pool moves on, websocket requests for the room go to that host, and others
-- where they went before; provided that the room's ID and the host's name are not empty.
pub scheduled_room_routed :
    {P S : Type 0} (pools : HostPool P) (store : Storage S) (laws : StorageLaws store)
    (query : String → String → String) (decode : List ℕ → Option RoomCreatedMsg)
    (answer : Request → Response) (req : Request) (sch : Scheduler P) (s : S) (b : List ℕ)
    (m : RoomCreatedMsg)
    → (answer (proxy_director pools sch req).0).status_code ≡ 200
    → (answer (proxy_director pools sch req).0).body ≡ read b
    → (answer (proxy_director pools sch req).0).closes ≡ none
    → decode b ≡ some m
    → (store.set s m.room_id (pools.get sch.pool).0).1 ≡ none
    → m.room_id ≢ ""
    → (pools.get sch.pool).0 ≢ ""
    → let (s', sch', rsp, err) = get_proxy pools store decode answer req sch s in
      (rsp.body ≡ read b)
      × (err ≡ none)
      × (sch'.pool ≡ (pools.get sch.pool).1)
      × ((url : Url)
          → proxy_backend store query s' url ≡ (
              if str_eq (query url.raw_query "rid") m.room_id
              then some (record backend_ws_scheme {
                host = (pools.get sch.pool).0;
                fragment = url.fragment;
                path = url.path;
                raw_query = url.raw_query;
              })
              else proxy_backend store query s url))
unfolding get_proxy proxy_director next_backend
scheduled_room_routed pools store laws query decode answer req sch s b m c e z d taken named host =
    let (r, n, routed) =
      created_room_routed store laws query decode
        (record (answer (proxy_director pools sch req).0) { host = (pools.get sch.pool).0 }) s b m c
        e z d taken named host in
    (ap (λ (x : Response). x.body) r ∙ e, n, refl, routed)
