-- ===== src/Schedule/Orchestrator.antt =====
-- orchestrator.go: the rooms of every backend are bound in the registry, and the backends published.
use Prim.Native.String.{◌++◌ as append}
use vchamber.Prelude.{
  ℕ, zero, suc, ◌+◌, List, [], ◌∷◌, Option, none, some, String, GoMap, insert, Outcome, ok, panic,
  explicit_panic, ◌>>=◌,
}
use vchamber.Wire.{Float64, one_float}
use vchamber.Rest.{ServerInfoMsg}
use vchamber.Schedule.Storage.{Error, Storage}
use vchamber.Schedule.Scheduler.{ScheduleInfo, scheduling_strategy_balance}

-- What a GET of /server of a host comes to.
pub data Reply : Type 0 where
  unreachable : Reply
  unreadable : Reply
  answered : List ℕ → Reply

-- fmt.Sprintf("vc-backend-%d.ws-backend-service:8080", i)
unfoldable pub host_of : (ℕ → String) → ℕ → String
host_of decimal i = append (append "vc-backend-" (decimal i)) ".ws-backend-service:8080"

-- for i := 0; i < npods; i++
unfoldable pub hosts_from : (ℕ → String) → ℕ → ℕ → List String
hosts_from decimal i zero = []
hosts_from decimal i (suc n) = host_of decimal i ∷ hosts_from decimal (i + 1) n

module _ {S : Type 0} (store : Storage S) (fetch : String → Reply)
    (decode : List ℕ → Option ServerInfoMsg) where
  -- The error of an entry is dropped.
  unfoldable pub bind_rooms : String → List String → S → S
  bind_rooms host [] s = s
  bind_rooms host (room ∷ rooms) s = bind_rooms host rooms (store.set s room host).0

  unfoldable pub bind_decoded :
      String → Option ServerInfoMsg → S × GoMap Float64 → S × GoMap Float64
  bind_decoded host none (s, b) = (s, b)
  bind_decoded host (some m) (s, b) = (bind_rooms host m.rooms s, insert host one_float b)

  unfoldable pub bind_reply : String → Reply → S × GoMap Float64 → S × GoMap Float64
  unfolding bind_decoded
  bind_reply host unreachable (s, b) = (s, insert host one_float b)
  bind_reply host unreadable (s, b) = (s, b)
  bind_reply host (answered buf) (s, b) = bind_decoded host (decode buf) (s, b)

  unfoldable pub poll : List String → S × GoMap Float64 → S × GoMap Float64
  unfolding bind_reply
  poll [] acc = acc
  poll (host ∷ rest) acc = poll rest (bind_reply host (fetch host) acc)

  unfoldable pub publish : Option Error → ScheduleInfo → S → Outcome (S × ScheduleInfo)
  publish none info s = ok (s, info)
  publish (some e) info s = panic explicit_panic

  -- `pods` is the number of backend pods, none if they cannot be listed; `published` is the error of
  -- the publication. The result is the registry and the message that was published.
  unfoldable pub update_backend_info :
      (ℕ → String) → Option ℕ → Option Error → S → Outcome (S × ScheduleInfo)
  unfolding publish
  update_backend_info decimal none published s = panic explicit_panic
  update_backend_info decimal (some npods) published s =
      let (s', b) = poll (hosts_from decimal 0 npods) (s, []) in
      publish published (record { backends = b; strategy = scheduling_strategy_balance }) s'

-- What an UpdateBackendInfo of Run meets.
pub record Tick : Type 0 where
  pub pods : Option ℕ
  pub fetch : String → Reply
  pub published : Option Error

module _ {S : Type 0} (store : Storage S) (decode : List ℕ → Option ServerInfoMsg)
    (decimal : ℕ → String) where
  -- UpdateBackendInfo at each tick, with what it publishes.
  unfoldable pub run_ticks : List Tick → S → Outcome (S × List ScheduleInfo)
  run_ticks [] s = ok (s, [])
  run_ticks (t ∷ ts) s = do
    (s', info) ← update_backend_info store t.fetch decode decimal t.pods t.published s
    (s'', infos) ← run_ticks ts s'
    ok (s'', info ∷ infos)

  -- Run, for one update at its start and one for each tick since. The errors of the configuration of
  -- Kubernetes and of its client end it before.
  unfoldable pub run_orchestrator :
      Option Error → Option Error → List Tick → S → Outcome (S × List ScheduleInfo)
  run_orchestrator (some e) clientset ts s = panic explicit_panic
  run_orchestrator none (some e) ts s = panic explicit_panic
  run_orchestrator none none ts s = run_ticks ts s
