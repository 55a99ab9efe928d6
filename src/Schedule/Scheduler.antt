-- ===== src/Schedule/Scheduler.antt =====
-- scheduler.go: which backend makes a room, and the entry in the registry once it has.
use vchamber.Prelude.{
  ℕ, ℤ, pos, List, [], ◌∷◌, Option, none, some, String, if◌then◌else◌, ◌==◌, GoMap,
}
use vchamber.Wire.{Float64}
use vchamber.Rest.{RoomCreatedMsg}
use vchamber.Schedule.Storage.{Error, Storage}
use vchamber.Schedule.Revproxy.{Url, backend_rest_scheme}

abbrev pub SchedulingStrategy : Type 0
SchedulingStrategy = ℤ

abbrev pub scheduling_strategy_balance : SchedulingStrategy
scheduling_strategy_balance = pos 0

abbrev pub scheduling_strategy_compact : SchedulingStrategy
scheduling_strategy_compact = pos 1

pub record ScheduleInfo : Type 0 where
  pub backends : GoMap Float64
  pub strategy : SchedulingStrategy

abbrev pub new_schedule_info : ScheduleInfo
new_schedule_info = record { backends = []; strategy = scheduling_strategy_balance }

-- The pool of hosts: made of a list, and asked for the next host.
pub record HostPool (P : Type 0) : Type 0 where
  pub new : List String → P
  pub get : P → String × P

pub record Scheduler (P : Type 0) : Type 0 where
  pub info : ScheduleInfo
  pub pool : P

-- The hosts of a map, in one order; Go leaves the order open.
abbrev pub hosts : GoMap Float64 → List String
hosts [] = []
hosts ((h, l) ∷ m) = h ∷ hosts m

-- A request, as far as the director looks at it: User-Agent is none if the header lacks it.
pub record Request : Type 0 where
  pub url : Url
  pub user_agent : Option String

abbrev or_empty : Option String → Option String
or_empty none = some ""
or_empty (some agent) = some agent

module _ {P : Type 0} (pools : HostPool P) where
  unfoldable pub new_scheduler : Scheduler P
  new_scheduler = record { info = new_schedule_info; pool = pools.new ("" ∷ []) }

  unfoldable pub rebuild_pool : Scheduler P → Scheduler P
  rebuild_pool sch = record sch { pool = pools.new (hosts sch.info.backends) }

  unfoldable pub next_backend : Scheduler P → String × Scheduler P
  next_backend sch = let (h, pool) = pools.get sch.pool in (h, record sch { pool = pool })

  -- A round of RunScheduler. `decode` is what json.Unmarshal leaves in an empty ScheduleInfo; its
  -- error is dropped.
  unfoldable pub run_scheduler :
      (String → ScheduleInfo × Option Error) → String → Scheduler P → Scheduler P
  run_scheduler decode payload sch = rebuild_pool (record sch { info = (decode payload).0 })

  unfoldable pub proxy_director : Scheduler P → Request → Request × Scheduler P
  proxy_director sch req =
      let (h, sch') = next_backend sch in
      (
        record req {
          url = record req.url { scheme = backend_rest_scheme.scheme; host = h };
          user_agent = or_empty req.user_agent;
        },
        sch',
      )

-- What reading a body to its end gives.
pub data ReadAll : Type 0 where
  read : List ℕ → ReadAll
  read_failed : Error → ReadAll

-- A response of a backend: its status, its body, the error of closing the body, if any, and the host
-- that its request went to.
pub record Response : Type 0 where
  pub status_code : ℕ
  pub body : ReadAll
  pub closes : Option Error
  pub host : String

module _ {S : Type 0} (store : Storage S) (decode : List ℕ → Option RoomCreatedMsg) where
  register : Response → List ℕ → Option RoomCreatedMsg → S → S × Response × Option Error
  register rsp b none s = (s, rsp, some "Internal error during room creation")
  register rsp b (some m) s =
      ((store.set s m.room_id rsp.host).0, record rsp { body = read b }, none)

  close_body : Response → List ℕ → Option Error → S → S × Response × Option Error
  unfolding register
  close_body rsp b (some e) s = (s, rsp, some e)
  close_body rsp b none s = register rsp b (decode b) s

  read_body : Response → ReadAll → S → S × Response × Option Error
  unfolding close_body
  read_body rsp (read_failed e) s = (s, rsp, some e)
  read_body rsp (read b) s = close_body rsp b rsp.closes s

  -- The state of the registry, the response, and the error that makes the proxy fail.
  unfoldable pub room_register : Response → S → S × Response × Option Error
  unfolding read_body
  room_register rsp s = if rsp.status_code == 200 then read_body rsp rsp.body s else (s, rsp, none)

-- GetProxy: the reverse proxy directs a request, has it answered, and modifies the response, whose
-- request is the directed one. `answer` is what the backends answer.
module _ {P S : Type 0} (pools : HostPool P) (store : Storage S)
    (decode : List ℕ → Option RoomCreatedMsg) (answer : Request → Response) where
  unfoldable pub get_proxy : Request → Scheduler P → S → S × Scheduler P × Response × Option Error
  get_proxy req sch s =
      let (sent, sch') = proxy_director pools sch req in
      let (s', rsp, err) =
        room_register store decode (record (answer sent) { host = sent.url.host }) s in
      (s', sch', rsp, err)
