-- ===== src/Cluster/Commands.antt =====
-- The programs of server/cmd/scheduler, server/cmd/revproxy, server/cmd/orchestrator and
-- server/cmd/test/stress. Flags, listeners and the logging are not modelled; http.ServeMux is taken
-- for what it documents of a pattern without a slash at its end, which only its own path fits.
use vchamber.Prelude.{
  ℕ, zero, suc, ◌-◌, ◌+◌, ◌<◌, ◌≡◌, ◌++◌, refl, arith, length, length-append, List, [], ◌∷◌, Option,
  none, String, if◌then◌else◌, str_eq, Outcome,
}
use vchamber.Codec.{Json}
use vchamber.Client.{Client, Connected, connected, refused, turned_away, connect}
use vchamber.Backend.{Attempt}
use vchamber.Rest.{RoomCreatedMsg, ServerInfoMsg}
use vchamber.Schedule.Storage.{
  Error, RedisClient, redis_backend, NewBackend, new_storage_backend, storage_backend_redis,
  redis_client_sentinel,
}
use vchamber.Schedule.Scheduler.{
  HostPool, Scheduler, ScheduleInfo, new_scheduler, Request, Response, get_proxy,
}
use vchamber.Schedule.Orchestrator.{Tick, run_orchestrator}

module _ {R : Type 0} (client : RedisClient R) where
  -- redis.NewFailoverClient with the sentinel's address
  abbrev pub failover : String → R
  failover sentinel = client.new_failover_client "mymaster" (sentinel ∷ [])

  -- The scheduler's program: the registry and the scheduler that it starts with.
  abbrev pub start_scheduler : {P : Type 0} → HostPool P → String → R × Scheduler P
  start_scheduler pools sentinel = (failover sentinel, new_scheduler pools)

  -- A request to it. `no_page` is the answer of the ServeMux where no pattern fits.
  unfoldable pub serve_scheduler :
      {P : Type 0}
      → HostPool P
      → (List ℕ → Option RoomCreatedMsg)
      → (Request → Response)
      → Response
      → Request
      → Scheduler P
      → R
      → R × Scheduler P × Response × Option Error
  serve_scheduler pools decode answer no_page req sch r =
      if str_eq req.url.path "/room"
      then get_proxy pools (redis_backend client) decode answer req sch r
      else (r, sch, no_page, none)

  -- The orchestrator's program.
  unfoldable pub start_orchestrator :
      (List ℕ → Option ServerInfoMsg)
      → (ℕ → String)
      → Option Error
      → Option Error
      → List Tick
      → String
      → Outcome (R × List ScheduleInfo)
  start_orchestrator decode decimal config clientset ticks sentinel =
      run_orchestrator (redis_backend client) decode decimal config clientset ticks
        (failover sentinel)

  -- The reverse proxy's program: the registry that it reads, or the error with which it ends.
  unfoldable pub start_revproxy : String → NewBackend R
  start_revproxy addr =
      new_storage_backend client storage_backend_redis (redis_client_sentinel ∷ addr ∷ [])

-- How the stress test starts: a client of the loop that cannot connect ends it, with the number of
-- those before it; or the last client cannot connect; or all have.
data Stress : Type 0 where
  fatal : ℕ → String → Stress
  last_failed : List Client → String → Stress
  joined : List Client → Client → Stress

last_client : List Client → Connected → Stress
last_client cs (connected c) = joined cs c
last_client cs (refused e) = last_failed cs e
last_client cs (turned_away e) = last_failed cs e

next_client : (Client → Stress) → ℕ → Connected → Stress
next_client go_on i (connected c) = go_on c
next_client go_on i (refused e) = fatal i e
next_client go_on i (turned_away e) = fatal i e

-- The loop, from a number on, and the last client after it.
join_from : Json → (ℕ → Attempt) → ℕ → ℕ → List Client → Stress
unfolding next_client last_client
join_from json at i zero cs = last_client cs (connect json (at i).got (at i).now (at i).dialled)
join_from json at i (suc k) cs =
    next_client (λ c. join_from json at (i + 1) k (cs ++ c ∷ [])) i
      (connect json (at i).got (at i).now (at i).dialled)

run_stress : Json → (ℕ → Attempt) → ℕ → Stress
unfolding join_from
run_stress json at n_per_room = join_from json at 0 (n_per_room - 1) []

-- A stress test that goes on has the number of clients that was asked for, at least one; one that
-- ends has met an error, with fewer clients.
abbrev Counts : ℕ → Stress → Type 0
Counts n (fatal i e) = i < n
Counts n (last_failed cs e) = length cs ≡ n
Counts n (joined cs c) = length cs ≡ n

next_client-Counts :
    (n i : ℕ) (go_on : Client → Stress)
    → i < n
    → ((c : Client) → Counts n (go_on c))
    → (r : Connected) → Counts n (next_client go_on i r)
unfolding next_client
next_client-Counts n i go_on l h (connected c) = h c
next_client-Counts n i go_on l h (refused e) = l
next_client-Counts n i go_on l h (turned_away e) = l

last_client-Counts :
    (n : ℕ) (cs : List Client) → length cs ≡ n → (r : Connected) → Counts n (last_client cs r)
unfolding last_client
last_client-Counts n cs e (connected c) = e
last_client-Counts n cs e (refused x) = e
last_client-Counts n cs e (turned_away x) = e

join_from-Counts :
    (json : Json) (at : ℕ → Attempt) (n i k : ℕ) (cs : List Client)
    → length cs ≡ i
    → n ≡ i + k
    → Counts n (join_from json at i k cs)
unfolding join_from
join_from-Counts json at n i zero cs e d = last_client-Counts n cs (omega arith) _
join_from-Counts json at n i (suc k) cs e d =
    next_client-Counts n i _ (omega arith)
      (λ c.
        join_from-Counts json at n (i + 1) k (cs ++ c ∷ [])
          (omega (arith, length-append cs (c ∷ []))) (omega arith))
      _

run_stress-Counts :
    (json : Json) (at : ℕ → Attempt) (n_per_room : ℕ)
    → Counts (n_per_room - 1) (run_stress json at n_per_room)
unfolding run_stress
run_stress-Counts json at n_per_room =
    join_from-Counts json at (n_per_room - 1) 0 (n_per_room - 1) [] refl (omega arith)
