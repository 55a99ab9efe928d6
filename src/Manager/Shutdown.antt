-- ===== src/Manager/Shutdown.antt =====
-- The deferred calls of RunManager: every client is removed, and closed once.
use vchamber.Prelude.{
  ◌≡◌, refl, inl, inr, true, false, Bool-cases, some, Option-cases, String, [], ◌∷◌, drain, ok,
  blocked, Returns-eq, Safely, Safely_of_Returns, str_eq, Returns, bind-Returns, Returns-map, GoMap,
  IsDistinct, lookup, delete_head, lookup-head, eq_nil_of_lookup, arith, subst,
}
use vchamber.Room.{ClientRef, Chamber, kill_client}
use vchamber.Room.Invariant as RoomInvariant
use vchamber.Room.Kill.{kill_registered, without, without-Inv}
use vchamber.Manager.{Manager, kill_all, on_shutdown, end_manager}
use vchamber.Manager.Invariant.{Inv, IsEmpty, IsClosed}

-- Channels once closed stay closed.
abbrev StayClosed : Chamber → Chamber → Type 0
StayClosed ch ch' = (c : ClientRef) → IsClosed (ch.conns c) → IsClosed (ch'.conns c)

-- The room has no clients left, and those that it had are closed.
abbrev Emptied : GoMap ClientRef → Chamber → Chamber → Type 0
Emptied cs ch ch' =
    RoomInvariant.Inv ch'
    × (ch'.room.clients ≡ [])
    × StayClosed ch ch'
    × ((k : String) (c : ClientRef) → lookup k cs ≡ some c → IsClosed (ch'.conns c))

module _ (k : String) (c : ClientRef) (cs : GoMap ClientRef) (ch : Chamber)
    (v : RoomInvariant.Inv ch) (e : ch.room.clients ≡ (k, c) ∷ cs) where
  head_bound : lookup k ch.room.clients ≡ some c
  head_bound = rw e (lookup-head k c cs)

  head_id : (ch.conns c).id ≡ k
  head_id = v.keyed k c head_bound

  head_killed : kill_client (some c) ch ≡ ok (without c ch)
  head_killed = kill_registered c ch v (rw head_id head_bound)

  rest_left : (without c ch).room.clients ≡ cs
  rest_left = rw (head_id, e) (delete_head k c cs (subst IsDistinct e v.clients_distinct).0)

  head_closes : StayClosed ch (without c ch)
  head_closes d h = ground (arith, h)

kill_all-Emptied :
    (cs : GoMap ClientRef) (ch : Chamber)
    → RoomInvariant.Inv ch
    → ch.room.clients ≡ cs
    → Returns (kill_all cs ch) (Emptied cs ch)
unfolding kill_all lookup
kill_all-Emptied [] ch v e = (v, e, λ c h. h, λ k c h. cc)
kill_all-Emptied ((k, c) ∷ cs) ch v e = rw (head_killed k c cs ch v e) (
    Returns-map (kill_all cs (without c ch)) (Emptied cs (without c ch)) _
      (kill_all-Emptied cs (without c ch) (without-Inv c ch v) (rest_left k c cs ch v e))
      (λ ch' (v', none_left, stay, all_closed). (
        v',
        none_left,
        λ d h. stay d (head_closes k c cs ch v e d h),
        λ j d h. elim (Bool-cases (str_eq k j)) [
          | inl here ↦ stay d (ground arith)
          | inr there ↦ all_closed j d (ground arith)
        ],
      )))

-- A room without clients has no masters.
no_masters : (ch : Chamber) → RoomInvariant.Inv ch → ch.room.clients ≡ [] → ch.room.masters ≡ []
unfolding lookup
no_masters ch v e = eq_nil_of_lookup ch.room.masters λ k.
    elim (Option-cases (lookup k ch.room.masters)) [
      | inl absent ↦ absent
      | inr (c, h) ↦ absurd (no_entry k c (v.masters_join k c h).0)
    ]
  where
    no_entry : (k : String) (c : ClientRef) → lookup k ch.room.clients ≡ some c → ⊥
    no_entry k c h = let h' : lookup k [] ≡ some c = subst (λ m. lookup k m ≡ some c) e h in cc

-- What end_manager leaves of a room that it has closed.
abbrev pub IsEmptied : Manager → Manager → Type 0
IsEmptied mg mg' =
    IsEmpty mg'.chamber
    × ((k : String) (c : ClientRef)
        → lookup k mg.chamber.room.clients ≡ some c
        → IsClosed (mg'.chamber.conns c))

-- The deferred function up to its request to the server.
pub on_shutdown_empties :
    (mg : Manager)
    → Inv mg
    → mg.shutdown_timer.fired ≡ true
    → Returns (on_shutdown mg) (IsEmptied mg)
unfolding on_shutdown
on_shutdown_empties mg v fired =
    rw (fired, drain)
      (bind-Returns (kill_all mg.chamber.room.clients mg.chamber) _
        (Emptied mg.chamber.room.clients mg.chamber) _
        (kill_all-Emptied mg.chamber.room.clients mg.chamber v.room refl)
        (λ ch (v', none_left, stay, all_closed).
          ((none_left, no_masters ch v' none_left), all_closed)))

-- Once the shutdown timer of a well-formed manager is out, the manager ends if the server receives
-- its request to be removed: it does not panic, the room has no clients and no masters left, and
-- both channels of every client that it had are closed. If the server does not receive the request,
-- the manager waits with it.
pub end_manager_empties :
    (mg : Manager)
    → Inv mg
    → mg.shutdown_timer.fired ≡ true
    → Returns (end_manager true mg) (IsEmptied mg) × (end_manager false mg ≡ blocked)
unfolding end_manager
end_manager_empties mg v fired = (
  bind-Returns (on_shutdown mg) _ (IsEmptied mg) (IsEmptied mg) (on_shutdown_empties mg v fired)
      (λ mg' h. h),
  (let (mg', e, h) = Returns-eq (on_shutdown mg) (IsEmptied mg) (on_shutdown_empties mg v fired) in
      rw e refl),
)

on_shutdown_quiet : (mg : Manager) → mg.shutdown_timer.fired ≡ false → on_shutdown mg ≡ blocked
unfolding on_shutdown
on_shutdown_quiet mg h = rw (h, drain) refl

pub on_shutdown-IsEmpty :
    (mg : Manager) → Inv mg → Safely (on_shutdown mg) (λ mg'. IsEmpty mg'.chamber)
on_shutdown-IsEmpty mg v = elim (Bool-cases mg.shutdown_timer.fired) [
  | inl fired ↦
      Safely_of_Returns (on_shutdown mg) _
        (Returns-map (on_shutdown mg) _ _ (on_shutdown_empties mg v fired) (λ mg' h. h.0))
  | inr quiet ↦ rw (on_shutdown_quiet mg quiet) tt
]
