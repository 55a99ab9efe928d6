-- ===== src/Room/Invariant.antt =====
-- What holds of a room between two rounds of its manager.
use vchamber.Prelude.{
  ◌≡◌, inl, inr, true, false, none, some, Option-cases, String, str_eq, str_eq_iff, if◌then◌else◌,
  lookup, IsDistinct, lookup-insert, insert-IsDistinct, arith,
}
use vchamber.Conn.{ClientConn, is_master}
use vchamber.Room.{ClientRef, Chamber, join_client}

-- A client that may join: its ID is new, and its channels are open.
pub record IsFresh (c : ClientRef) (ch : Chamber) : Type 0 where
  pub new_id : lookup (ch.conns c).id ch.room.clients ≡ none
  pub not_closing : (ch.conns c).closing.closed ≡ false
  pub sendable : (ch.conns c).send_queue.closed ≡ false

abbrev pub IsOpen : ClientConn → Type 0
IsOpen c = (c.closing.closed ≡ false) × (c.send_queue.closed ≡ false)

pub record Inv (ch : Chamber) : Type 0 where
  pub clients_distinct : IsDistinct ch.room.clients
  pub masters_distinct : IsDistinct ch.room.masters
  pub keyed : (k : String) (c : ClientRef) → lookup k ch.room.clients ≡ some c → (ch.conns c).id ≡ k
  pub live : (k : String) (c : ClientRef) → lookup k ch.room.clients ≡ some c → IsOpen (ch.conns c)
  pub masters_join :
      (k : String) (c : ClientRef)
      → lookup k ch.room.masters ≡ some c
      → (lookup k ch.room.clients ≡ some c) × (is_master (ch.conns c).state ≡ true)
  pub masters_all :
      (k : String) (c : ClientRef)
      → lookup k ch.room.clients ≡ some c
      → is_master (ch.conns c).state ≡ true
      → lookup k ch.room.masters ≡ some c

-- Nothing of the client has changed but what waits in its queues.
abbrev pub IsSame : ClientConn → ClientConn → Type 0
IsSame c d =
    (d.id ≡ c.id)
    × (d.state ≡ c.state)
    × (d.closing ≡ c.closing)
    × (d.send_queue.closed ≡ c.send_queue.closed)

abbrev pub AllSame : (ClientRef → ClientConn) → (ClientRef → ClientConn) → Type 0
AllSame conns conns' = (c : ClientRef) → IsSame (conns c) (conns' c)

-- The room is well formed, with the clients, the masters and the incoming messages of before.
abbrev pub Keeps : Chamber → Chamber → Type 0
Keeps ch ch' =
    Inv ch'
    × (ch'.room.clients ≡ ch.room.clients)
    × (ch'.room.masters ≡ ch.room.masters)
    × (ch'.room.recv_queue ≡ ch.room.recv_queue)

-- The clients of the room have not changed but for their queues; of others nothing is said.
abbrev pub Untouched : Chamber → Chamber → Type 0
Untouched ch ch' =
    (k : String) (c : ClientRef)
    → lookup k ch.room.clients ≡ some c
    → IsSame (ch.conns c) (ch'.conns c)

pub untouched-Inv :
    (ch ch' : Chamber)
    → ch'.room.clients ≡ ch.room.clients
    → ch'.room.masters ≡ ch.room.masters
    → Untouched ch ch'
    → Inv ch
    → Inv ch'
untouched-Inv ch ch' ec em same v = record {
  clients_distinct = rw ec v.clients_distinct;
  masters_distinct = rw em v.masters_distinct;
  keyed = λ k c h. ground (arith, same k c, v.keyed k c);
  live = λ k c h. ground (arith, same k c, v.live k c);
  masters_join = λ k c h. ground (arith, v.masters_join k c, same k c);
  masters_all = λ k c h m. ground (arith, same k c, v.masters_all k c);
}

pub same-Inv :
    (ch ch' : Chamber)
    → ch'.room.clients ≡ ch.room.clients
    → ch'.room.masters ≡ ch.room.masters
    → AllSame ch.conns ch'.conns
    → Inv ch
    → Inv ch'
same-Inv ch ch' ec em same v = untouched-Inv ch ch' ec em (λ k c h. same c) v

module _ (c : ClientRef) (ch : Chamber) (fresh : IsFresh c ch) (v : Inv ch) where
  pub joined_clients :
      (k : String)
      → lookup k (join_client (some c) ch).room.clients
        ≡ (if str_eq (ch.conns c).id k then some c else lookup k ch.room.clients)
  unfolding join_client
  joined_clients k = lookup-insert (ch.conns c).id k c ch.room.clients

  joined_masters :
      (k : String)
      → lookup k (join_client (some c) ch).room.masters ≡ (
          if is_master (ch.conns c).state
          then (if str_eq (ch.conns c).id k then some c else lookup k ch.room.masters)
          else lookup k ch.room.masters)
  unfolding join_client
  joined_masters k = ground (arith, lookup-insert (ch.conns c).id k c ch.room.masters)

  pub no_master : lookup (ch.conns c).id ch.room.masters ≡ none
  no_master = elim (Option-cases (lookup (ch.conns c).id ch.room.masters)) [
    | inl e ↦ e
    | inr (d, e) ↦ ground (arith, v.masters_join (ch.conns c).id d e, fresh.new_id)
  ]

  pub join-Inv : Inv (join_client (some c) ch)
  unfolding join_client
  join-Inv = record {
    clients_distinct = insert-IsDistinct _ _ _ v.clients_distinct;
    masters_distinct = ground (
      arith,
      insert-IsDistinct (ch.conns c).id c ch.room.masters v.masters_distinct,
      v.masters_distinct,
    );
    keyed = λ k d h. ground (arith, joined_clients k, str_eq_iff (ch.conns c).id k, v.keyed k d);
    live = λ k d h. ground (arith, joined_clients k, fresh, v.live k d);
    masters_join = λ k d h. ground (
      arith,
      joined_clients k,
      joined_masters k,
      str_eq_iff (ch.conns c).id k,
      fresh.new_id,
      v.masters_join k d,
    );
    masters_all = λ k d h m. ground (arith, joined_clients k, joined_masters k, v.masters_all k d);
  }
