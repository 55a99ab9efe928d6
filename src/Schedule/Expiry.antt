-- ===== src/Schedule/Expiry.antt =====
-- Entries of the registry in Redis live for RedisEntryTTL of server/schedule/storage.go.
use vchamber.Prelude.{
  ℕ, ◌+◌, ◌≤◌, ◌<◌, ◌≡◌, ◌≢◌, refl, sym, ◌∙◌, inl, inr, Bool-cases, List, Option, none, some,
  String, if◌then◌else◌, ltb, arith,
}
use vchamber.Wire.{Time, Duration}
use vchamber.Rest.{RoomCreatedMsg}
use vchamber.Schedule.Storage.{Error, RedisClient, redis_backend, redis_entry_ttl}
use vchamber.Schedule.Revproxy.{Url, backend_ws_scheme, proxy_backend}
use vchamber.Schedule.Scheduler.{Response, read, room_register}
use vchamber.Schedule.Routing.{proxied, registers, unproxied}

-- The commands of Redis, each at a time.
pub record TimedRedis (R : Type 0) : Type 0 where
  pub get : Time → R → String → String × Option Error
  pub set : Time → R → String → String → Duration → R × Option Error
  pub del : Time → R → String → R × Option Error
  pub ping : R → Option Error
  pub new_client : String → R
  pub new_failover_client : String → List String → R

-- What Redis documents of SET with an expiry and of GET.
pub record ExpiryLaws {R : Type 0} (redis : TimedRedis R) : Type 0 where
  pub kept :
      (r : R) (k v : String) (ttl : Duration) (wrote looks : Time)
      → (redis.set wrote r k v ttl).1 ≡ none
      → wrote ≤ looks
      → looks < wrote + ttl
      → redis.get looks (redis.set wrote r k v ttl).0 k ≡ (v, none)
  pub expired :
      (r : R) (k v : String) (ttl : Duration) (wrote looks : Time)
      → (redis.set wrote r k v ttl).1 ≡ none
      → wrote + ttl ≤ looks
      → (redis.get looks (redis.set wrote r k v ttl).0 k).0 ≡ ""

module _ {R : Type 0} (redis : TimedRedis R) (wrote looks : Time) where
  -- A client that writes at one time and reads at another.
  abbrev pub timed : RedisClient R
  timed = record {
    get = redis.get looks;
    set = redis.set wrote;
    del = redis.del wrote;
    ping = redis.ping;
    new_client = redis.new_client;
    new_failover_client = redis.new_failover_client;
  }

module _ {R : Type 0} (redis : TimedRedis R) (laws : ExpiryLaws redis) (wrote looks : Time)
    (query : String → String → String) (decode : List ℕ → Option RoomCreatedMsg) where
  -- A room that is registered is reached for five minutes. If a backend has answered that it made a
  -- room, and Redis takes the entry, a websocket request for that room at a later time, before the
  -- time to live of the entry is over, goes to that backend, with its path, query and fragment; after
  -- that, if nothing else is written in between, the reverse proxy has no backend for it. This is so
  -- if Redis keeps an entry for its time to live and no longer, and the room's ID and the host's name
  -- are not empty.
  pub registered_for_ttl :
      (rsp : Response) (r : R) (b : List ℕ) (m : RoomCreatedMsg) (url : Url)
      → rsp.status_code ≡ 200
      → rsp.body ≡ read b
      → rsp.closes ≡ none
      → decode b ≡ some m
      → (redis.set wrote r m.room_id rsp.host redis_entry_ttl).1 ≡ none
      → m.room_id ≢ ""
      → rsp.host ≢ ""
      → wrote ≤ looks
      → query url.raw_query "rid" ≡ m.room_id
      → let (r', rsp', err) =
          room_register (redis_backend (timed redis wrote looks)) decode rsp r in
        (err ≡ none)
        × (proxy_backend (redis_backend (timed redis wrote looks)) query r' url ≡ (
            if ltb looks (wrote + redis_entry_ttl)
            then some (record backend_ws_scheme {
              host = rsp.host;
              fragment = url.fragment;
              path = url.path;
              raw_query = url.raw_query;
            })
            else none))
  unfolding redis_backend
  registered_for_ttl rsp r b m url c e z d taken named host after asked =
      rw (registers (redis_backend (timed redis wrote looks)) query decode rsp r b m c e z d) (
        refl,
        elim (Bool-cases (ltb looks (wrote + redis_entry_ttl))) [
          | inl within ↦
              let there : (redis.get looks (redis.set wrote r m.room_id rsp.host redis_entry_ttl).0
                    (query url.raw_query "rid")).0
                  ≡ rsp.host =
                rw
                  (
                    asked,
                    laws.kept r m.room_id rsp.host redis_entry_ttl wrote looks taken after
                        (ground arith),
                  )
                  refl in
              rw within (
                proxied (redis_backend (timed redis wrote looks)) query decode
                  (redis.set wrote r m.room_id rsp.host redis_entry_ttl).0 url rsp.host
                  (λ clash. named (sym asked ∙ clash)) there host)
          | inr over ↦
              let gone : (redis.get looks (redis.set wrote r m.room_id rsp.host redis_entry_ttl).0
                    (query url.raw_query "rid")).0
                  ≡ "" =
                rw
                  (
                    asked,
                    laws.expired r m.room_id rsp.host redis_entry_ttl wrote looks taken
                        (ground arith),
                  )
                  refl in
              rw over (
                unproxied (redis_backend (timed redis wrote looks)) query decode
                  (redis.set wrote r m.room_id rsp.host redis_entry_ttl).0 url gone)
        ],
      )
