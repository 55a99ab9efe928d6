-- ===== src/Server/Invariant.antt =====
-- Every room of the server is bound under its ID, and its channels are open.
use vchamber.Prelude.{
  ◌≡◌, ◌≢◌, refl, ◌⊎◌, inl, inr, true, false, Bool-cases, none, some, Option-cases, String, str_eq,
  str_eq_iff, str_eq_self, ◌==◌, lookup, delete, IsDistinct, lookup-insert, lookup-delete,
  insert-IsDistinct, delete-IsDistinct, close_chan, ok, Returns, update, arith,
}
use vchamber.Room.{Room}
use vchamber.Server.{RoomRef, Hub, join_room, kill_room}

abbrev pub IsOpen : Room → Type 0
IsOpen r =
    (r.closing.closed ≡ false)
    × (r.recv_queue.closed ≡ false)
    × (r.enq_client.closed ≡ false)
    × (r.deq_client.closed ≡ false)

abbrev pub IsClosed : Room → Type 0
IsClosed r =
    (r.closing.closed ≡ true)
    × (r.recv_queue.closed ≡ true)
    × (r.enq_client.closed ≡ true)
    × (r.deq_client.closed ≡ true)

pub record Inv (hub : Hub) : Type 0 where
  pub distinct : IsDistinct hub.server.rooms
  pub keyed : (k : String) (r : RoomRef) → lookup k hub.server.rooms ≡ some r → (hub.store r).id ≡ k
  pub live : (k : String) (r : RoomRef) → lookup k hub.server.rooms ≡ some r → IsOpen (hub.store r)

pub join_room-Inv :
    (r : RoomRef) (hub : Hub) → IsOpen (hub.store r) → Inv hub → Inv (join_room (some r) hub)
unfolding join_room
join_room-Inv r hub o v = record {
  distinct = insert-IsDistinct _ _ _ v.distinct;
  keyed = λ k s h. ground (
    arith,
    lookup-insert (hub.store r).id k r hub.server.rooms,
    str_eq_iff (hub.store r).id k,
    v.keyed k s,
  );
  live = λ k s h. ground (arith, lookup-insert (hub.store r).id k r hub.server.rooms, v.live k s);
}

-- The room after its four channels were closed.
abbrev pub closed_room : Room → Room
closed_room r = record r {
  closing = record r.closing { closed = true };
  recv_queue = record r.recv_queue { closed = true };
  enq_client = record r.enq_client { closed = true };
  deq_client = record r.deq_client { closed = true };
}

abbrev pub without : RoomRef → Hub → Hub
without r hub = record hub {
  server = record hub.server { rooms = delete (hub.store r).id hub.server.rooms };
  store = update hub.store r (closed_room (hub.store r));
}

module _ (r : RoomRef) (hub : Hub) (v : Inv hub) where
  pub kill_registered :
      lookup (hub.store r).id hub.server.rooms ≡ some r
      → kill_room (some r) hub ≡ ok (without r hub)
  unfolding kill_room close_chan
  kill_registered h = ground (arith, v.live (hub.store r).id r h)

  kill_other : lookup (hub.store r).id hub.server.rooms ≢ some r → kill_room (some r) hub ≡ ok hub
  unfolding kill_room
  kill_other h = ground arith

  registered_cases :
      (lookup (hub.store r).id hub.server.rooms ≡ some r)
      ⊎ (lookup (hub.store r).id hub.server.rooms ≢ some r)
  registered_cases = elim (Option-cases (lookup (hub.store r).id hub.server.rooms)) [
    | inl e ↦ inr (λ f. ground arith)
    | inr (s, e) ↦ elim (Bool-cases (s == r)) [
      | inl same ↦ inl (ground arith)
      | inr other ↦ inr (λ f. ground arith)
    ]
  ]

  other_ref :
      (k : String) (s : RoomRef)
      → lookup k hub.server.rooms ≡ some s
      → str_eq (hub.store r).id k ≡ false
      → (r == s) ≡ false
  other_ref k s h n = ground (arith, v.keyed k s h, str_eq_iff (hub.store r).id k)

  pub without-Inv : Inv (without r hub)
  without-Inv = record {
    distinct = delete-IsDistinct _ _ v.distinct;
    keyed = λ k s h.
        ground
          (arith, lookup-delete (hub.store r).id k hub.server.rooms, v.keyed k s, other_ref k s);
    live = λ k s h.
        ground
          (arith, lookup-delete (hub.store r).id k hub.server.rooms, v.live k s, other_ref k s);
  }

  gone : lookup (hub.store r).id (without r hub).server.rooms ≡ none
  gone = ground (
    arith,
    lookup-delete (hub.store r).id (hub.store r).id hub.server.rooms,
    str_eq_self (hub.store r).id,
  )

  gone_again : kill_room (some r) (without r hub) ≡ ok (without r hub)
  unfolding kill_room
  gone_again = ground (arith, gone)

  -- On a well-formed server a request to remove a room completes without a panic and keeps the
  -- server well formed. If the room is the one that is bound under its ID, it is taken out and its
  -- channels are closed; otherwise, and so for a second request, nothing changes: a newer room of
  -- the same ID stays.
  pub kill_room_cases : Returns (kill_room (some r) hub) (λ hub'.
      Inv hub'
      × (((lookup (hub.store r).id hub.server.rooms ≡ some r)
            × (lookup (hub.store r).id hub'.server.rooms ≡ none)
            × IsClosed (hub'.store r))
          ⊎ ((lookup (hub.store r).id hub.server.rooms ≢ some r) × (hub' ≡ hub)))
      × (kill_room (some r) hub' ≡ ok hub'))
  kill_room_cases = elim registered_cases [
    | inl e ↦ rw (kill_registered e) (without-Inv, inl (e, gone, ground arith), gone_again)
    | inr e ↦ rw (kill_other e) (v, inr (e, refl), kill_other e)
  ]
