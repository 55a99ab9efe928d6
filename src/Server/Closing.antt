-- ===== src/Server/Closing.antt =====
-- The end of a server, and what its rooms meet then.
use vchamber.Prelude.{
  ◌≡◌, refl, inl, inr, true, Bool-cases, [], ◌∷◌, none, some, String, str_eq, str_eq_self, GoMap,
  IsDistinct, lookup, delete_head, lookup-head, recv, recv-Safely, recv_closed, lookup-insert, send,
  send_closed, ok, panic, nil_dereference, send_on_closed, Returns, Returns-map, bind-Returns,
  Safely, Safely_of_Returns, bind-Safely, arith, subst,
}
use vchamber.Wire.{FloatOps}
use vchamber.Conn.{Turn, again, returned}
use vchamber.Conn.Authority.{state_of}
use vchamber.Room.{ClientRef}
use vchamber.Manager.{Manager, Readings, on_message_in}
use vchamber.Manager.Updates.{closed_queue_panics}
use vchamber.Server.{
  RoomRef, Hub, join_room, kill_room, kill_rooms, Event, room_in, room_out, closed, run_server,
}
use vchamber.Server.Invariant.{
  Inv, IsOpen, IsClosed, join_room-Inv, kill_registered, without, without-Inv, kill_room_cases,
}

abbrev StayClosed : Hub → Hub → Type 0
StayClosed hub hub' = (r : RoomRef) → IsClosed (hub.store r) → IsClosed (hub'.store r)

abbrev Emptied : GoMap RoomRef → Hub → Hub → Type 0
Emptied rs hub hub' =
    (hub'.server.rooms ≡ [])
    × StayClosed hub hub'
    × ((k : String) (r : RoomRef) → lookup k rs ≡ some r → IsClosed (hub'.store r))

module _ (k : String) (r : RoomRef) (rs : GoMap RoomRef) (hub : Hub) (v : Inv hub)
    (e : hub.server.rooms ≡ (k, r) ∷ rs) where
  head_bound : lookup k hub.server.rooms ≡ some r
  head_bound = rw e (lookup-head k r rs)

  head_id : (hub.store r).id ≡ k
  head_id = v.keyed k r head_bound

  head_killed : kill_room (some r) hub ≡ ok (without r hub)
  head_killed = kill_registered r hub v (rw head_id head_bound)

  rest_left : (without r hub).server.rooms ≡ rs
  rest_left = rw (head_id, e) (delete_head k r rs (subst IsDistinct e v.distinct).0)

  head_closes : StayClosed hub (without r hub)
  head_closes s h = ground (arith, h)

kill_rooms-Emptied :
    (rs : GoMap RoomRef) (hub : Hub)
    → Inv hub
    → hub.server.rooms ≡ rs
    → Returns (kill_rooms rs hub) (Emptied rs hub)
unfolding kill_rooms lookup
kill_rooms-Emptied [] hub v e = (e, λ r h. h, λ k r h. cc)
kill_rooms-Emptied ((k, r) ∷ rs) hub v e = rw (head_killed k r rs hub v e) (
    Returns-map (kill_rooms rs (without r hub)) (Emptied rs (without r hub)) _
      (kill_rooms-Emptied rs (without r hub) (without-Inv r hub v) (rest_left k r rs hub v e))
      (λ hub' (none_left, stay, all_closed). (
        none_left,
        λ s h. stay s (head_closes k r rs hub v e s h),
        λ j s h. elim (Bool-cases (str_eq k j)) [
          | inl here ↦ stay s (ground arith)
          | inr there ↦ all_closed j s (ground arith)
        ],
      )))

-- Rooms come in with open channels.
abbrev pub IsAdmissible : Event → Hub → Type 0
IsAdmissible (room_in (some r)) hub = IsOpen (hub.store r)
IsAdmissible (room_in none) hub = Unit
IsAdmissible (room_out r) hub = Unit
IsAdmissible closed hub = Unit

abbrev pub Kept : Hub → Turn Hub → Type 0
Kept hub (again hub') = Inv hub'
Kept hub (returned hub') =
    (hub'.server.rooms ≡ [])
    × ((k : String) (r : RoomRef) → lookup k hub.server.rooms ≡ some r → IsClosed (hub'.store r))

-- No round of a well-formed server panics, so no channel of a room is closed twice, if the rooms
-- that come in have open channels. Afterwards the server is well formed again; or it has ended, has
-- no rooms, and has closed the channels of all that it had.
pub run_server-Kept :
    (e : Event) (hub : Hub) → IsAdmissible e hub → Inv hub → Safely (run_server e hub) (Kept hub)
unfolding run_server join_room kill_room
run_server-Kept (room_in none) hub a v = v
run_server-Kept (room_in (some r)) hub a v = join_room-Inv r hub a v
run_server-Kept (room_out none) hub a v = v
run_server-Kept (room_out (some r)) hub a v =
    bind-Safely (kill_room (some r) hub) _ Inv (Kept hub)
      (Safely_of_Returns _ Inv (Returns-map _ _ Inv (kill_room_cases r hub v) (λ hub' h. h.0)))
      (λ hub' v'. v')
run_server-Kept closed hub a v =
    bind-Safely (recv hub.server.closing) _ (λ q. Unit) (Kept hub) (recv-Safely hub.server.closing)
      (λ q h.
        bind-Safely (kill_rooms hub.server.rooms hub) _ (Emptied hub.server.rooms hub) (Kept hub)
          (Safely_of_Returns (kill_rooms hub.server.rooms hub) (Emptied hub.server.rooms hub)
            (kill_rooms-Emptied hub.server.rooms hub v refl))
          (λ hub' (none_left, stay, all_closed). (none_left, all_closed)))

-- A room that a well-formed server has removed is a trap for the goroutines that still run on it.
-- Its manager does not listen to `closing`: if its queue was empty, a round that receives from it
-- panics. And a client's goroutine that asks the manager to be removed panics.
killed_room_panics :
    (r : RoomRef) (hub : Hub)
    → Inv hub
    → lookup (hub.store r).id hub.server.rooms ≡ some r
    → (hub.store r).recv_queue.buffer ≡ []
    → Returns (kill_room (some r) hub) (λ hub'.
      ((fl : FloatOps) (at : Readings) (mg : Manager)
        → mg.chamber.room ≡ hub'.store r
        → on_message_in fl at mg ≡ panic nil_dereference)
      × ((c : ClientRef) → send c (hub'.store r).deq_client ≡ panic send_on_closed))
killed_room_panics r hub v h idle = rw (kill_registered r hub v h) (
  λ fl at mg same. closed_queue_panics fl at mg (rw same (ground arith)) (rw same (ground arith)),
  λ c. send_closed c _ (ground arith),
)

-- Once the channel of the server is closed, the event loop ends without waiting.
pub closed_ends :
    (hub : Hub)
    → hub.server.closing.buffer ≡ []
    → hub.server.closing.closed ≡ true
    → Inv hub
    → Returns (run_server closed hub) (λ t. (state_of t).server.rooms ≡ [])
unfolding run_server
closed_ends hub e shut v = rw (recv_closed hub.server.closing e shut) (
    bind-Returns (kill_rooms hub.server.rooms hub) _ (Emptied hub.server.rooms hub) _
      (kill_rooms-Emptied hub.server.rooms hub v refl) (λ hub' (none_left, stay, done). none_left))

pub joined_bound :
    (r : RoomRef) (hub : Hub)
    → lookup (hub.store r).id (join_room (some r) hub).server.rooms ≡ some r
unfolding join_room
joined_bound r hub = ground (
  arith,
  lookup-insert (hub.store r).id (hub.store r).id r hub.server.rooms,
  str_eq_self (hub.store r).id,
)

pub joined_store : (r : RoomRef) (hub : Hub) → (join_room (some r) hub).store r ≡ hub.store r
unfolding join_room
joined_store r hub = refl
