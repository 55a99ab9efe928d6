-- ===== src/Tests/Expiries.antt =====
-- A registry whose entries run out.
use vchamber.Prelude.{
  ◌≡◌, ◌+◌, refl, true, [], Option, none, some, String, GoMap, lookup, insert, lookup-insert,
  str_eq_self, ltb, if◌then◌else◌, arith,
}
use vchamber.Wire.{Time, Duration}
use vchamber.Rest.{RoomCreatedMsg}
use vchamber.Schedule.Storage.{Error, redis_backend}
use vchamber.Schedule.Revproxy.{backend_ws_scheme, proxy_backend}
use vchamber.Schedule.Scheduler.{Response, read, room_register}
use vchamber.Schedule.Expiry.{TimedRedis, ExpiryLaws, timed, registered_for_ttl}
use vchamber.Tests.Scheduling.{room_url}

abbrev Entries : Type 0
Entries = GoMap (String × Time)

-- The value of an entry, if it lives.
value_at : Time → Option (String × Time) → String × Option Error
value_at now none = ("", some "redis: nil")
value_at now (some (v, until)) = if ltb now until then (v, none) else ("", some "redis: nil")

get_at : Time → Entries → String → String × Option Error
unfolding value_at
get_at now r k = value_at now (lookup k r)

set_at : Time → Entries → String → String → Duration → Entries × Option Error
set_at now r k v ttl = (insert k (v, now + ttl) r, none)

abbrev redis : TimedRedis Entries
redis = record {
  get = get_at;
  set = set_at;
  del = λ now r k. (r, none);
  ping = λ r. none;
  new_client = λ addr. [];
  new_failover_client = λ name addrs. [];
}

redis-ExpiryLaws : ExpiryLaws redis
unfolding get_at set_at
redis-ExpiryLaws = record {
  kept = λ r k v ttl wrote looks taken after within.
      rw (lookup-insert k k (v, wrote + ttl) r) (rw (str_eq_self k) (ground arith));
  expired = λ r k v ttl wrote looks taken over.
      rw (lookup-insert k k (v, wrote + ttl) r) (rw (str_eq_self k) (ground arith));
}

abbrev room_msg : RoomCreatedMsg
room_msg = record {
  is_ok = true;
  room_id = "room";
  master_key = "master key";
  guest_key = "guest key";
}

abbrev response : Response
response = record { status_code = 200; body = read []; closes = none; host = "host" }

registered_for_ttl_example :
    let (r', rsp', err) =
      room_register (redis_backend (timed redis 5 9)) (λ b. some room_msg) response [] in
    (err ≡ none)
    × (proxy_backend (redis_backend (timed redis 5 9)) (λ raw key. raw) r' room_url
        ≡ some (record backend_ws_scheme {
          host = "host";
          fragment = "";
          path = "/ws";
          raw_query = "room";
        }))
unfolding set_at
registered_for_ttl_example =
    registered_for_ttl redis redis-ExpiryLaws 5 9 (λ raw key. raw) (λ b. some room_msg) response []
      [] room_msg room_url refl refl refl refl refl (λ e. cc) (λ e. cc) (omega arith) refl
