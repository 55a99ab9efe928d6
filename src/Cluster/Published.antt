-- ===== src/Cluster/Published.antt =====
-- From the orchestrator's publication to a room that is made and entered.
use text.Mathlib.TextLemmas.{append-ne-nil_of_right_ne-nil}
use vchamber.Prelude.{
  ℕ, zero, suc, ◌≡◌, ◌≢◌, refl, sym, ◌∙◌, ap, subst, true, false, List, [], Option, none, some,
  String, str_eq_iff, ok, arith, ◌+◌,
}
use vchamber.Server.{RoomRef}
use vchamber.Rest.{Body, room_created, RoomCreatedMsg, ServerInfoMsg}
use vchamber.Rest.Creation.{has}
use vchamber.Schedule.Storage.{Error, Storage, StorageLaws}
use vchamber.Schedule.Scheduler.{
  HostPool, Scheduler, Request, ScheduleInfo, hosts, run_scheduler, rebuild_pool,
}
use vchamber.Schedule.Orchestrator.{Reply, host_of, hosts_from, update_backend_info}
use vchamber.Schedule.Publishing.{listed}
use vchamber.Schedule.Pipeline.{published_hosts}
use vchamber.Cluster.{Backends, Drawn}
use vchamber.Cluster.Entering.{IsDrawn, IsEntered, created_room-IsEntered}

-- What go-hostpool promises: the next host of a pool is one of those that it was made of.
pub record PoolLaws {P : Type 0} (pools : HostPool P) : Type 0 where
  pub get-new : (hs : List String) → hs ≢ [] → has (pools.get (pools.new hs)).0 hs ≡ true

host_of_lem : (decimal : ℕ → String) (i : ℕ) → host_of decimal i ≢ ""
unfolding host_of
host_of_lem decimal i = append-ne-nil_of_right_ne-nil _ (λ e. cc)

no_empty_host :
    (fetch : String → Reply) (decode : List ℕ → Option ServerInfoMsg) (decimal : ℕ → String)
    (n i : ℕ)
    → has "" (listed fetch decode (hosts_from decimal i n)) ≡ false
unfolding hosts_from
no_empty_host fetch decode decimal zero i = refl
no_empty_host fetch decode decimal (suc n) i = ground (
  arith,
  no_empty_host fetch decode decimal n (i + 1),
  str_eq_iff (host_of decimal i) "",
  host_of_lem decimal i,
)

module _ {P S : Type 0} (pools : HostPool P) (turns : PoolLaws pools) (store : Storage S)
    (laws : StorageLaws store) (sets : (s : S) (k v : String) → (store.set s k v).1 ≡ none)
    (query : String → String → String) (write : Body → List ℕ)
    (decode : List ℕ → Option RoomCreatedMsg)
    (reads : (m : RoomCreatedMsg) → decode (write (room_created m)) ≡ some m)
    (fetch : String → Reply) (decode_server : List ℕ → Option ServerInfoMsg)
    (decode_info : String → ScheduleInfo × Option Error) where
  -- From the orchestrator's publication to a master and a guest in a new room. When the scheduler has
  -- read an update of the orchestrator, in which a host is published, a request to it for a room's
  -- creation goes to a host that the orchestrator lists, and brings back the answer of that backend,
  -- with the room's ID and keys. Once that backend has taken the room in, the reverse proxy, which
  -- looks the room up in the registry, brings a websocket request for /ws with the room's ID there,
  -- where the master key lets its client in as a master, and the guest key as a guest, unless both are
  -- equal. This is so if the pool gives a host that it has, the registry takes and keeps every entry,
  -- the message is read as it was published, the answer is read as it was written, the random bytes
  -- can be read, the backend takes the room in time, the new ID is not empty, and the upgrade settles
  -- on the subprotocol.
  pub published_room-IsEntered :
      (decimal : ℕ → String) (n : ℕ) (s s' : S) (info : ScheduleInfo) (payload : String)
      (sch : Scheduler P) (d : Drawn) (mk gk : List ℕ) (req : Request) (backends : Backends)
      (r : RoomRef)
      → update_backend_info store fetch decode_server decimal (some n) none s ≡ ok (s', info)
      → (decode_info payload).0 ≡ info
      → hosts info.backends ≢ []
      → IsDrawn d mk gk
      → d.rid ≢ ""
      → let sch' = run_scheduler pools decode_info payload sch in
        (has (pools.get sch'.pool).0 (listed fetch decode_server (hosts_from decimal 0 n)) ≡ true)
        × IsEntered pools store query write decode d req sch' s' backends r
  unfolding run_scheduler rebuild_pool
  published_room-IsEntered decimal n s s' info payload sch d mk gk req backends r e read some_host
        drawn named =
      let sch' = run_scheduler pools decode_info payload sch in
      let (pool, told) =
        published_hosts store fetch decode_server pools decode_info decimal n s s' info payload sch
          e read in
      let is_told : has (pools.get sch'.pool).0
            (listed fetch decode_server (hosts_from decimal 0 n))
          ≡ true =
        sym (told (pools.get sch'.pool).0)
        ∙ ap (λ (x : ScheduleInfo). has (pools.get sch'.pool).0 (hosts x.backends)) read
        ∙ ap (λ p. has (pools.get p).0 (hosts info.backends)) pool
        ∙ turns.get-new (hosts info.backends) some_host in
      (
        is_told,
        created_room-IsEntered pools store laws query write decode reads d mk gk req sch' s'
            backends r drawn named
            (λ none_there.
              let there : has "" (listed fetch decode_server (hosts_from decimal 0 n)) ≡ true =
                subst (λ h. has h (listed fetch decode_server (hosts_from decimal 0 n)) ≡ true)
                  none_there is_told in
              let missing : has "" (listed fetch decode_server (hosts_from decimal 0 n)) ≡ false =
                no_empty_host fetch decode_server decimal n 0 in
              cc)
            (sets s' d.rid (pools.get sch'.pool).0),
      )
