-- ===== src/Schedule/Routing.antt =====
-- From the scheduler's entry in the registry to the reverse proxy's backend.
use vchamber.Prelude.{
  Bool-cases, ℕ, ◌≡◌, ◌≢◌, inl, inr, refl, sym, ◌∙◌, ap, List, Option, none, some, String,
  if◌then◌else◌, str_eq, str_eq_ne, str_eq_iff, str_eq_self, str-cases, arith,
}
use vchamber.Rest.{RoomCreatedMsg}
use vchamber.Schedule.Storage.{Storage, StorageLaws}
use vchamber.Schedule.Revproxy.{Url, backend_ws_scheme, proxy_backend, target_of}
use vchamber.Schedule.Scheduler.{Response, read, room_register}

module _ {S : Type 0} (store : Storage S) (query : String → String → String)
    (decode : List ℕ → Option RoomCreatedMsg) where
  pub registers :
      (rsp : Response) (s : S) (b : List ℕ) (m : RoomCreatedMsg)
      → rsp.status_code ≡ 200
      → rsp.body ≡ read b
      → rsp.closes ≡ none
      → decode b ≡ some m
      → room_register store decode rsp s ≡ ((store.set s m.room_id rsp.host).0, rsp, none)
  unfolding room_register
  registers rsp s b m ok_status e c d = ground arith

  -- The target of a request, by what the registry has for its room.
  pub proxied :
      (s : S) (url : Url) (h : String)
      → query url.raw_query "rid" ≢ ""
      → (store.get s (query url.raw_query "rid")).0 ≡ h
      → h ≢ ""
      → proxy_backend store query s url
        ≡ some (record backend_ws_scheme {
          host = h;
          fragment = url.fragment;
          path = url.path;
          raw_query = url.raw_query;
        })
  unfolding proxy_backend
  proxied s url h named found host =
      ground (arith, str_eq_ne (query url.raw_query "rid") "" named, str_eq_ne h "" host)

  proxy_same :
      (s s' : S) (url : Url)
      → store.get s' (query url.raw_query "rid") ≡ store.get s (query url.raw_query "rid")
      → proxy_backend store query s' url ≡ proxy_backend store query s url
  unfolding proxy_backend
  proxy_same s s' url e = rw (e, target_of) refl

  pub unproxied :
      (s : S) (url : Url)
      → (store.get s (query url.raw_query "rid")).0 ≡ ""
      → proxy_backend store query s url ≡ none
  unfolding proxy_backend target_of
  unproxied s url e = elim (Bool-cases (str_eq (query url.raw_query "rid") "")) [
    | inl unnamed ↦ rw unnamed refl
    | inr named ↦ rw (named, e) refl
  ]

module _ {S : Type 0} (store : Storage S) (laws : StorageLaws store)
    (query : String → String → String) (decode : List ℕ → Option RoomCreatedMsg) where
  -- A room is reached where it was made. After a backend has answered that it made a room, and the
  -- registry has taken the entry, the answer goes on to the caller as it was; a websocket request
  -- for that room goes to that backend, with its path, query and fragment; and where a request for
  -- any other room goes has not changed.
  pub created_room_routed :
      (rsp : Response) (s : S) (b : List ℕ) (m : RoomCreatedMsg)
      → rsp.status_code ≡ 200
      → rsp.body ≡ read b
      → rsp.closes ≡ none
      → decode b ≡ some m
      → (store.set s m.room_id rsp.host).1 ≡ none
      → m.room_id ≢ ""
      → rsp.host ≢ ""
      → let (s', rsp', err) = room_register store decode rsp s in
        (rsp' ≡ rsp)
        × (err ≡ none)
        × ((url : Url)
            → proxy_backend store query s' url ≡ (
                if str_eq (query url.raw_query "rid") m.room_id
                then some (record backend_ws_scheme {
                  host = rsp.host;
                  fragment = url.fragment;
                  path = url.path;
                  raw_query = url.raw_query;
                })
                else proxy_backend store query s url))
  created_room_routed rsp s b m ok_status e c d taken named host =
      rw (registers store query decode rsp s b m ok_status e c d) (
        refl,
        refl,
        λ url. elim (str-cases (query url.raw_query "rid") m.room_id) [
          | inl same ↦
              rw (same, str_eq_self m.room_id)
                (proxied store query decode (store.set s m.room_id rsp.host).0 url rsp.host
                  (λ clash. named (sym same ∙ clash))
                  (ap (λ k. (store.get (store.set s m.room_id rsp.host).0 k).0) same
                    ∙ ap (λ r. r.0) (laws.get-set s m.room_id rsp.host taken))
                  host)
          | inr other ↦ rw other (
              proxy_same store query decode s (store.set s m.room_id rsp.host).0 url (
                laws.get-set_ne s m.room_id (query url.raw_query "rid") rsp.host taken
                  (λ clash. ground (arith, str_eq_iff (query url.raw_query "rid") m.room_id))))
        ],
      )
