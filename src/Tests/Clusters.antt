-- ===== src/Tests/Clusters.antt =====
-- A room on one of the backends behind the scheduler and the reverse proxy.
use Prim.Native.Char.{code}
use Prim.Native.String.{[] as empty, ◌∷◌ as ◌▹◌}
use vchamber.Prelude.{
  ℕ, zero, suc, Bool, false, ap, ◌≡◌, refl, true, List, [], ◌∷◌, Option, none, some, String,
  if◌then◌else◌, str_eq, insert, str_eq_self, ◌≢◌,
}
use vchamber.Rest.{Body, room_created, RoomCreatedMsg}
use vchamber.Schedule.Storage.{mem_backend, mem_backend-StorageLaws}
use vchamber.Cluster.{Backends, Drawn}
use vchamber.Cluster.Entering.{IsEntered}
use vchamber.Cluster.Published.{PoolLaws, published_room-IsEntered}
use vchamber.Schedule.Scheduler.{run_scheduler}
use vchamber.Schedule.Orchestrator.{hosts_from, host_of, bind_rooms, poll, update_backend_info}
use vchamber.Schedule.Publishing.{listed}
use vchamber.Rest.Creation.{has}
use vchamber.Tests.Servers.{hub}
use vchamber.Tests.Scheduling.{
  pools, registry, request, scheduler, published, refreshed, fetch, decode_info, decimal,
}
use vchamber.Tests.Texts.{to_char, to_char-code}

-- A text with an end.
ended : String → List ℕ → List ℕ
ended empty l = 0 ∷ l
ended (c ▹ s) l = suc (code c) ∷ ended s l

after : ℕ → String × List ℕ → String × List ℕ
after n (s, l) = (to_char n ▹ s, l)

split : List ℕ → String × List ℕ
unfolding after
split [] = (empty, [])
split (zero ∷ l) = (empty, l)
split (suc n ∷ l) = after n (split l)

split-ended : (s : String) (l : List ℕ) → split (ended s l) ≡ (s, l)
unfolding split ended
split-ended empty l = refl
split-ended (c ▹ s) l = rw (split-ended s l) (ap (λ d. (d ▹ s, l)) (to_char-code c))

flag : Bool → ℕ
flag true = 1
flag false = 0

is_set : ℕ → Bool
is_set zero = false
is_set (suc n) = true

write_room : RoomCreatedMsg → List ℕ
write_room m = flag m.is_ok ∷ ended m.room_id (ended m.master_key (ended m.guest_key []))

write_body : Body → List ℕ
unfolding write_room
write_body (room_created m) = write_room m
write_body _ = []

read_keys : Bool → String × List ℕ → RoomCreatedMsg
read_keys b (id, l) = record {
  is_ok = b;
  room_id = id;
  master_key = (split l).0;
  guest_key = (split (split l).1).0;
}

read_room : List ℕ → Option RoomCreatedMsg
unfolding read_keys
read_room [] = none
read_room (n ∷ l) = some (read_keys (is_set n) (split l))

flag_lem : (b : Bool) → is_set (flag b) ≡ b
unfolding is_set flag
flag_lem true = refl
flag_lem false = refl

read_room-write : (m : RoomCreatedMsg) → read_room (write_body (room_created m)) ≡ some m
unfolding read_room write_body
read_room-write m =
    rw
      (
        split-ended m.room_id (ended m.master_key (ended m.guest_key [])),
        split-ended m.master_key (ended m.guest_key []),
        split-ended m.guest_key [],
        flag_lem m.is_ok,
      )
      refl

abbrev drawn : Drawn
drawn = record {
  encode = λ b. elim b [ [] ↦ "guest key" | x ∷ xs ↦ "master key" ];
  rid = "room";
  m_buf = some (1 ∷ []);
  g_buf = some [];
  now = 0;
  taken = true;
}

-- The room that is asked for is fixed, and the rest of the query is the token.
abbrev query : String → String → String
query raw key = if str_eq key "rid" then "room" else raw

abbrev backends : Backends
backends = λ h. hub

pools-PoolLaws : PoolLaws pools
pools-PoolLaws = record { get-new = first }
  where
    first : (hs : List String) → hs ≢ [] → has (pools.get (pools.new hs)).0 hs ≡ true
    first [] e = absurd (e refl)
    first (h ∷ hs) e = rw (str_eq_self h) refl

published_room-IsEntered_example :
    let sch' = run_scheduler pools (λ payload. (published, none)) "" scheduler in
    (has (pools.get sch'.pool).0 (listed fetch decode_info (hosts_from decimal 0 2)) ≡ true)
    × IsEntered pools mem_backend query write_body read_room drawn request sch' refreshed backends 7
unfolding mem_backend update_backend_info poll hosts_from host_of bind_rooms insert
published_room-IsEntered_example =
    published_room-IsEntered pools pools-PoolLaws mem_backend mem_backend-StorageLaws
      (λ s k v. refl) query write_body read_room read_room-write fetch decode_info
      (λ payload. (published, none)) decimal 2 registry refreshed published "" scheduler drawn
      (1 ∷ []) [] request backends 7 refl refl (λ e. cc) (refl, refl, refl) (λ e. cc)
