-- ===== src/Tests/Scheduling.antt =====
-- The registry in memory, and the backends that it names.
use vchamber.Prelude.{
  ℕ, zero, suc, ◌≡◌, refl, true, Option, none, some, List, [], ◌∷◌, String, if◌then◌else◌, str_eq,
  GoMap, length, insert, Returns,
}
use vchamber.Wire.{one_float}
use vchamber.Rest.{ServerInfoMsg}
use vchamber.Rest.Creation.{has}
use vchamber.Schedule.Storage.{mem_backend, mem_backend-StorageLaws}
use vchamber.Schedule.Revproxy.{Url, backend_ws_scheme, proxy_backend}
use vchamber.Schedule.Pipeline.{published_hosts}
use vchamber.Schedule.Scheduler.{
  Request, Scheduler, HostPool, ScheduleInfo, scheduling_strategy_balance, hosts, run_scheduler,
}
use vchamber.Schedule.Orchestrator.{
  Tick, run_orchestrator, Reply, unreachable, answered, hosts_from, host_of, bind_rooms, poll,
  update_backend_info,
}
use vchamber.Schedule.Running.{entry, newest_teller, run_routes}
use vchamber.Schedule.Publishing.{listed}

-- A query is the room ID itself.
abbrev query : String → String → String
query raw key = raw

abbrev pub registry : GoMap String
registry = ("other", "elsewhere") ∷ []

-- The second of two backends is not reached, the first tells one room.
abbrev pub fetch : String → Reply
fetch host = if str_eq host "vc-backend-0.ws-backend-service:8080" then answered [] else unreachable

abbrev pub decode_info : List ℕ → Option ServerInfoMsg
decode_info b = some (record { is_ok = true; n_room = 1; rooms = "room" ∷ [] })

abbrev pub decimal : ℕ → String
decimal zero = "0"
decimal (suc n) = "1"

-- A pool is the list of its hosts.
abbrev pub pools : HostPool (List String)
pools = record { new = λ hs. hs; get = λ p. elim p [ [] ↦ ("", []) | h ∷ hs ↦ (h, hs) ] }

abbrev pub published : ScheduleInfo
published = record {
  backends =
      ("vc-backend-0.ws-backend-service:8080", one_float)
      ∷ ("vc-backend-1.ws-backend-service:8080", one_float)
      ∷ [];
  strategy = scheduling_strategy_balance;
}

abbrev pub refreshed : GoMap String
refreshed = ("other", "elsewhere") ∷ ("room", "vc-backend-0.ws-backend-service:8080") ∷ []

published_hosts_example :
    let sch' =
      run_scheduler pools
        (λ payload. (published, none))
        ""
        (record { info = published; pool = [] }) in
    (sch'.pool ≡ hosts published.backends)
    × ((h : String)
        → has h (hosts sch'.info.backends)
          ≡ has h (listed fetch decode_info (hosts_from decimal 0 2)))
unfolding mem_backend update_backend_info poll hosts_from host_of bind_rooms insert
published_hosts_example =
    published_hosts mem_backend fetch decode_info pools (λ payload. (published, none)) decimal 2
      registry refreshed published "" (record { info = published; pool = [] }) refl refl

-- Two updates: at the second the first backend is not reached.
abbrev ticks : List Tick
ticks =
    record { pods = some 2; fetch = fetch; published = none }
    ∷ record { pods = some 2; fetch = λ host. unreachable; published = none }
    ∷ []

abbrev pub room_url : Url
room_url = record { scheme = "ws"; host = ""; path = "/ws"; raw_query = "room"; fragment = "" }

run_routes_example :
    Returns
      (run_orchestrator mem_backend decode_info decimal none none ticks registry)
      (λ (s', infos).
        (length infos ≡ 2)
        × (proxy_backend mem_backend query s' room_url
            ≡ some (record backend_ws_scheme {
              host = "vc-backend-0.ws-backend-service:8080";
              fragment = "";
              path = "/ws";
              raw_query = "room";
            }))
        × ((room : String)
            → mem_backend.get s' room
              ≡ entry
                  (newest_teller decode_info decimal room ticks)
                  (mem_backend.get registry room)))
unfolding mem_backend hosts_from host_of
run_routes_example =
    run_routes mem_backend mem_backend-StorageLaws (λ s k v. refl) decode_info decimal query ticks
      registry room_url "vc-backend-0.ws-backend-service:8080"
      (((2, refl), refl), (((2, refl), refl), tt)) (λ e. cc) (λ e. cc) refl

abbrev pub request : Request
request = record { url = room_url; user_agent = none }

abbrev pub scheduler : Scheduler (List String)
scheduler = record { info = published; pool = "host" ∷ [] }
