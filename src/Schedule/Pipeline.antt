-- ===== src/Schedule/Pipeline.antt =====
-- From the orchestrator's poll to the scheduler's pool of hosts.
use vchamber.Prelude.{
  ℕ, ◌≡◌, refl, ◌∙◌, ap, Bool, true, false, List, [], ◌∷◌, Option, none, some, String,
  if◌then◌else◌, GoMap, lookup, Returns-ok, ok, arith,
}
use vchamber.Wire.{Float64, one_float}
use vchamber.Rest.{ServerInfoMsg}
use vchamber.Rest.Creation.{has, is_some}
use vchamber.Schedule.Storage.{Error, Storage}
use vchamber.Schedule.Scheduler.{
  ScheduleInfo, HostPool, Scheduler, hosts, rebuild_pool, run_scheduler,
}
use vchamber.Schedule.Orchestrator.{Reply, hosts_from, update_backend_info}
use vchamber.Schedule.Publishing.{listed, update_backend_info-listed}

has-hosts : (h : String) (m : GoMap Float64) → has h (hosts m) ≡ is_some (lookup h m)
unfolding lookup
has-hosts h [] = refl
has-hosts h ((j, l) ∷ m) = ground (arith, has-hosts h m)

is_some-if : (b : Bool) → is_some (if b then some one_float else none) ≡ b
is_some-if true = refl
is_some-if false = refl

module _ {S : Type 0} (store : Storage S) (fetch : String → Reply)
    (decode : List ℕ → Option ServerInfoMsg) {P : Type 0} (pools : HostPool P)
    (decode_info : String → ScheduleInfo × Option Error) where
  -- After an update is published, and if the scheduler reads from it what was written, the pool is
  -- made of the hosts of the message, and a host is among them exactly if the orchestrator lists
  -- it: it could not be reached, or it answered what decodes. The registry may do what it will.
  pub published_hosts :
      (decimal : ℕ → String) (n : ℕ) (s s' : S) (info : ScheduleInfo) (payload : String)
      (sch : Scheduler P)
      → update_backend_info store fetch decode decimal (some n) none s ≡ ok (s', info)
      → (decode_info payload).0 ≡ info
      → let sch' = run_scheduler pools decode_info payload sch in
        (sch'.pool ≡ pools.new (hosts info.backends))
        × ((h : String)
            → has h (hosts sch'.info.backends)
              ≡ has h (listed fetch decode (hosts_from decimal 0 n)))
  unfolding run_scheduler rebuild_pool
  published_hosts decimal n s s' info payload sch e read =
      let told =
        Returns-ok (update_backend_info store fetch decode decimal (some n) none s) _
          (update_backend_info-listed store fetch decode decimal n s) e in
      (
        ap (λ d. pools.new (hosts d.backends)) read,
        λ h.
            ap (λ d. has h (hosts d.backends)) read
            ∙ has-hosts h info.backends
            ∙ ap is_some (told h)
            ∙ is_some-if (has h (listed fetch decode (hosts_from decimal 0 n))),
      )
