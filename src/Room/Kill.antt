-- ===== src/Room/Kill.antt =====
-- killClient: a client is taken out of the room once, and its channels are closed once.
use vchamber.Prelude.{
  ◌≡◌, ◌≢◌, refl, ◌⊎◌, inl, inr, true, false, Bool-cases, none, some, Option-cases, String, str_eq,
  str_eq_iff, str_eq_self, if◌then◌else◌, ◌==◌, lookup, delete, lookup-delete, delete-IsDistinct,
  delete_absent, [], close_chan, ok, Returns, update, arith,
}
use vchamber.Conn.{ClientConn, is_master}
use vchamber.Room.{ClientRef, Chamber, kill_client}
use vchamber.Room.Invariant.{Inv}

-- The connection after close(c.closing) and close(c.sendQueue).
abbrev pub closed_conn : ClientConn → ClientConn
closed_conn c = record c {
  closing = record c.closing { closed = true };
  send_queue = record c.send_queue { closed = true };
}

-- The room and the store without a client.
abbrev pub without : ClientRef → Chamber → Chamber
without c ch = record {
  room = record ch.room {
    clients = delete (ch.conns c).id ch.room.clients;
    masters = delete (ch.conns c).id ch.room.masters;
  };
  conns = update ch.conns c (closed_conn (ch.conns c));
}

module _ (c : ClientRef) (ch : Chamber) (v : Inv ch) where
  pub kill_registered :
      lookup (ch.conns c).id ch.room.clients ≡ some c → kill_client (some c) ch ≡ ok (without c ch)
  unfolding kill_client close_chan
  kill_registered h = ground (arith, v.live (ch.conns c).id c h)

  pub kill_other : lookup (ch.conns c).id ch.room.clients ≢ some c → kill_client (some c) ch ≡ ok ch
  unfolding kill_client
  kill_other h = ground arith

  registered_cases :
      (lookup (ch.conns c).id ch.room.clients ≡ some c)
      ⊎ (lookup (ch.conns c).id ch.room.clients ≢ some c)
  registered_cases = elim (Option-cases (lookup (ch.conns c).id ch.room.clients)) [
    | inl e ↦ inr (λ f. ground arith)
    | inr (d, e) ↦ elim (Bool-cases (d == c)) [
      | inl same ↦ inl (ground arith)
      | inr other ↦ inr (λ f. ground arith)
    ]
  ]

  -- A client under another key is another client.
  other_ref :
      (k : String) (d : ClientRef)
      → lookup k ch.room.clients ≡ some d
      → str_eq (ch.conns c).id k ≡ false
      → (c == d) ≡ false
  other_ref k d h n = ground (arith, v.keyed k d h, str_eq_iff (ch.conns c).id k)

  pub without-Inv : Inv (without c ch)
  without-Inv = record {
    clients_distinct = delete-IsDistinct _ _ v.clients_distinct;
    masters_distinct = delete-IsDistinct _ _ v.masters_distinct;
    keyed = λ k d h.
        ground (arith, lookup-delete (ch.conns c).id k ch.room.clients, v.keyed k d, other_ref k d);
    live = λ k d h.
        ground (arith, lookup-delete (ch.conns c).id k ch.room.clients, v.live k d, other_ref k d);
    masters_join = λ k d h. ground (
      arith,
      lookup-delete (ch.conns c).id k ch.room.clients,
      lookup-delete (ch.conns c).id k ch.room.masters,
      v.masters_join k d,
      other_ref k d,
    );
    masters_all = λ k d h m. ground (
      arith,
      lookup-delete (ch.conns c).id k ch.room.clients,
      lookup-delete (ch.conns c).id k ch.room.masters,
      v.masters_all k d,
      other_ref k d,
    );
  }

  guest_masters :
      lookup (ch.conns c).id ch.room.clients ≡ some c
      → is_master (ch.conns c).state ≡ false
      → delete (ch.conns c).id ch.room.masters ≡ ch.room.masters
  guest_masters h g = elim (Option-cases (lookup (ch.conns c).id ch.room.masters)) [
    | inl e ↦ delete_absent (ch.conns c).id ch.room.masters e
    | inr (d, e) ↦ absurd (ground (arith, v.masters_join (ch.conns c).id d e))
  ]

  -- What a removal leaves as it was, whether or not the client was in the room.
  abbrev pub Leaves : Chamber → Type 0
  Leaves ch' =
      Inv ch'
      × (ch'.room.recv_queue ≡ ch.room.recv_queue)
      × ((is_master (ch.conns c).state ≡ true) ⊎ (ch'.room.masters ≡ ch.room.masters))
      × (ch.room.masters ≡ [] → ch'.room.masters ≡ [])

  pub kill_some-Leaves : Returns (kill_client (some c) ch) Leaves
  kill_some-Leaves = elim registered_cases [
    | inl e ↦
        rw (kill_registered e)
          (without-Inv, refl, ground (arith, guest_masters e), λ n. rw n (unfold delete in refl))
    | inr e ↦ rw (kill_other e) (v, refl, inr refl, λ n. n)
  ]

  -- Removing a client that is registered in a well-formed room completes without a panic: its ID is
  -- then neither a client nor a master, every other ID is bound as before, and both channels of the
  -- client are closed.
  pub kill_client_removes :
      lookup (ch.conns c).id ch.room.clients ≡ some c
      → Returns (kill_client (some c) ch) (λ ch'.
        ((ch'.conns c).closing.closed ≡ true)
        × ((ch'.conns c).send_queue.closed ≡ true)
        × ((k : String)
            → (lookup k ch'.room.clients
                ≡ (if str_eq (ch.conns c).id k then none else lookup k ch.room.clients))
              × (lookup k ch'.room.masters
                  ≡ (if str_eq (ch.conns c).id k then none else lookup k ch.room.masters))))
  kill_client_removes h = rw (kill_registered h) (
    ground arith,
    ground arith,
    λ k. (
      lookup-delete (ch.conns c).id k ch.room.clients,
      lookup-delete (ch.conns c).id k ch.room.masters,
    ),
  )

  again_gone : kill_client (some c) (without c ch) ≡ ok (without c ch)
  unfolding kill_client
  again_gone = ground (
    arith,
    lookup-delete (ch.conns c).id (ch.conns c).id ch.room.clients,
    str_eq_self (ch.conns c).id,
  )

  -- The goroutines of one client each ask for its removal. In a well-formed room, after the first
  -- request that is served, another one is served and changes nothing.
  kill_client_idem : Returns (kill_client (some c) ch) (λ ch'. kill_client (some c) ch' ≡ ok ch')
  kill_client_idem = elim registered_cases [
    | inl e ↦ rw (kill_registered e) again_gone
    | inr e ↦ rw (kill_other e) (kill_other e)
  ]
