-- ===== src/Tests/Rooms.antt =====
-- Clients of a room: removal, broadcasts, pings.
use vchamber.Prelude.{
  ok, ◌⊎◌, ◌++◌, ◌>>=◌, List, Bool-cases, subst, inl, inr, ◌≡◌, ◌≢◌, refl, true, none, some, [],
  ◌∷◌, String, str_eq, str_eq_iff, if◌then◌else◌, ◌==◌, lookup, insert, length, blocked, panic,
  send_on_closed, Returns, arith, make_chan, lookup, ◌<◌,
}
use vchamber.Wire.{Message, one_float, zero_float, message_type_pong, pong}
use vchamber.Playback.{get_current_state_message}
use vchamber.Playback.Laws.{whole_ops}
use vchamber.Conn.Order.{sending, frames, waiting, run_sender_in_order}
use vchamber.Handshake.{hello_message}
use vchamber.Codec.Types.{IsTyped}
use vchamber.Conn.{
  ClientConn, client_state_master, client_state_guest, on_queue, on_closing, handle_vchamber_client,
  again, returned, close_frame,
}
use vchamber.Room.{
  ClientRef, Chamber, kill_client, join_client, new_room, broadcast_state, send_until,
}
use vchamber.Room.Delivery.{queued}
use vchamber.Room.Broadcast.{broadcast_state_delivers, broadcast_state_blocks}
use vchamber.Conn.Typed.{AreTyped}
use vchamber.Conn.Sending.{Moment, run_sender, HasReturned}
use vchamber.Room.Farewell.{removed_sender_ends, removed_client_told}
use vchamber.Room.Partial.{OnceAtMost}
use vchamber.Room.Order.{SameMap, conns_after, broadcast_order}
use vchamber.Room.Invariant as RoomInvariant
use vchamber.Room.Invariant.{untouched-Inv}
use vchamber.Room.Kill.{closed_conn, kill_client_removes}
use vchamber.Room.Removed.{removed_ping_panics}
use vchamber.Manager.{start_manager}
use vchamber.Handshake.Access.{greeted}
use vchamber.Tests.Data.{at, full_chamber, full_chamber-Inv, ping_message}

kill_client_removes_example : Returns (kill_client (some 0) full_chamber) (λ ch'.
    ((ch'.conns 0).closing.closed ≡ true)
    × ((ch'.conns 0).send_queue.closed ≡ true)
    × ((k : String)
        → (lookup k ch'.room.clients
            ≡ (if str_eq "m" k then none else lookup k full_chamber.room.clients))
          × (lookup k ch'.room.masters
              ≡ (if str_eq "m" k then none else lookup k full_chamber.room.masters))))
unfolding start_manager new_room join_client lookup insert
kill_client_removes_example = kill_client_removes 0 full_chamber full_chamber-Inv refl

room_in_use :
    (k : String) (c : ClientRef)
    → lookup k full_chamber.room.clients ≡ some c
    → length (full_chamber.conns c).send_queue.buffer < (full_chamber.conns c).send_queue.capacity
unfolding start_manager new_room join_client
room_in_use k c h = ground arith

broadcast_state_delivers_example :
    Returns (broadcast_state whole_ops (at 5).shown full_chamber) (λ ch'.
      let (st, m) = get_current_state_message whole_ops (at 5).shown full_chamber.room.state in
      (ch'.room ≡ record full_chamber.room { state = st })
      × ((k : String) (c : ClientRef)
          → lookup k full_chamber.room.clients ≡ some c
          → ch'.conns c ≡ queued m (full_chamber.conns c))
      × ((c : ClientRef)
          → ((k : String) → lookup k full_chamber.room.clients ≢ some c)
          → ch'.conns c ≡ full_chamber.conns c))
broadcast_state_delivers_example =
    broadcast_state_delivers whole_ops (at 5).shown full_chamber full_chamber-Inv room_in_use

-- The guest does not take any messages: its queue has no space.
abbrev stuck_chamber : Chamber
stuck_chamber = record full_chamber {
  conns = λ c.
      if c == 1
      then record (greeted "g" client_state_guest) {
        send_queue = record (greeted "g" client_state_guest).send_queue { capacity = 1 };
      }
      else full_chamber.conns c;
}

stuck_chamber-Inv : RoomInvariant.Inv stuck_chamber
unfolding start_manager new_room join_client
stuck_chamber-Inv =
    untouched-Inv full_chamber stuck_chamber refl refl (λ k c h. ground arith) full_chamber-Inv

broadcast_state_blocks_example : broadcast_state whole_ops (at 5).shown stuck_chamber ≡ blocked
unfolding start_manager new_room join_client lookup insert
broadcast_state_blocks_example =
    broadcast_state_blocks whole_ops (at 5).shown stuck_chamber stuck_chamber-Inv "g" 1 refl
      (omega arith)

-- The master has sent a ping that nobody has handled.
abbrev pinged : ClientConn
pinged = record (greeted "m" client_state_master) {
  recv_queue = record (greeted "m" client_state_master).recv_queue { buffer = ping_message ∷ [] };
}

abbrev pinging_chamber : Chamber
pinging_chamber = record full_chamber {
  conns = λ c. if c == 0 then pinged else full_chamber.conns c;
}

pinging_chamber-Inv : RoomInvariant.Inv pinging_chamber
unfolding start_manager new_room join_client
pinging_chamber-Inv =
    untouched-Inv full_chamber pinging_chamber refl refl (λ k c h. ground arith) full_chamber-Inv

removed_ping_panics_example :
    Returns
      (kill_client (some 0) pinging_chamber)
      (λ ch'. handle_vchamber_client on_queue (ch'.conns 0) (make_chan 256) ≡ panic send_on_closed)
unfolding start_manager new_room join_client lookup insert
removed_ping_panics_example =
    removed_ping_panics 0 pinging_chamber ping_message (record { timestamp = one_float }) []
      (make_chan 256) pinging_chamber-Inv refl refl refl refl

-- The same on an idle connection.
abbrev idle_conn : ClientConn
idle_conn = record pinged { send_queue = make_chan 32 }

abbrev IsSwapped : String → Type 0
IsSwapped k = lookup k (("m", 0) ∷ ("g", 1) ∷ []) ≡ lookup k full_chamber.room.clients

swapped : SameMap (("m", 0) ∷ ("g", 1) ∷ []) full_chamber.room.clients
unfolding start_manager new_room join_client lookup insert
swapped k = elim (Bool-cases (str_eq "m" k)) [
  | inl e ↦ subst IsSwapped ((str_eq_iff "m" k).0 e) refl
  | inr e ↦ elim (Bool-cases (str_eq "g" k)) [
    | inl f ↦ subst IsSwapped ((str_eq_iff "g" k).0 f) refl
    | inr f ↦ rw (e, f) refl
  ]
]

-- The guest before the master, or after it.
broadcast_order_example :
    let m = (get_current_state_message whole_ops (at 5).shown full_chamber.room.state).1 in
    (conns_after (
        broadcast_state whole_ops (at 5).shown (record full_chamber {
          room = record full_chamber.room { clients = ("m", 0) ∷ ("g", 1) ∷ [] };
        }))
      ≡ conns_after (broadcast_state whole_ops (at 5).shown full_chamber))
    × ((c : ClientRef)
        → OnceAtMost m
            (full_chamber.conns c)
            (send_until m (("m", 0) ∷ ("g", 1) ∷ []) full_chamber.conns c))
    × ((conns_after (broadcast_state whole_ops (at 5).shown full_chamber) ≡ blocked)
        ⊎ (conns_after (broadcast_state whole_ops (at 5).shown full_chamber)
            ≡ ok (send_until m (("m", 0) ∷ ("g", 1) ∷ []) full_chamber.conns)))
unfolding start_manager new_room join_client lookup insert
broadcast_order_example =
    broadcast_order whole_ops (at 5).shown full_chamber (("m", 0) ∷ ("g", 1) ∷ []) full_chamber-Inv
      (refl, (refl, tt)) swapped

hello-AreTyped : AreTyped (full_chamber.conns 0).send_queue
unfolding join_client start_manager
hello-AreTyped = (
  record {
    as_hello = λ e. (_, refl);
    as_ping = λ e. cc;
    as_pong = λ e. cc;
    as_state_broadcast = λ e. cc;
    as_state_update = λ e. cc;
  },
  tt,
)

-- The select takes the queue, and then the closed channel.
abbrev moments : List Moment
moments =
    record { now = 1; written = true; ready = on_queue }
    ∷ record { now = 2; written = true; ready = on_closing }
    ∷ []

removed_sender_ends_example :
    Returns
      (do ch' ← kill_client (some 0) full_chamber; run_sender whole_ops moments (ch'.conns 0))
      (HasReturned 2)
unfolding join_client start_manager new_room lookup insert
removed_sender_ends_example =
    removed_sender_ends whole_ops 0 full_chamber moments full_chamber-Inv refl hello-AreTyped
      (omega arith)

-- A pong waits before a hello.
abbrev pong_waiting : Message
pong_waiting = record {
  sender = "";
  received_at = 3;
  type = message_type_pong;
  payload = pong (record { timestamp = one_float; svc_time = zero_float });
}

abbrev busy_conn : ClientConn
busy_conn = waiting (pong_waiting ∷ hello_message client_state_guest ∷ []) idle_conn

pong-IsTyped : IsTyped pong_waiting
pong-IsTyped = record {
  as_hello = λ e. cc;
  as_ping = λ e. cc;
  as_pong = λ e. (_, refl);
  as_state_broadcast = λ e. cc;
  as_state_update = λ e. cc;
}

run_sender_in_order_example :
    run_sender whole_ops (sending (5 ∷ [])) busy_conn
    ≡ ok (
        again (
          waiting (hello_message client_state_guest ∷ []) busy_conn,
          frames whole_ops (5 ∷ []) (pong_waiting ∷ []),
        ))
run_sender_in_order_example =
    run_sender_in_order whole_ops (5 ∷ []) (pong_waiting ∷ [])
      (hello_message client_state_guest ∷ []) busy_conn refl refl (pong-IsTyped, tt)

removed_client_told_example :
    (do
      ch' ← kill_client (some 0) full_chamber
      run_sender whole_ops (sending (5 ∷ 6 ∷ [])) (ch'.conns 0))
    ≡ ok (
        returned (
          waiting [] (closed_conn (full_chamber.conns 0)),
          frames whole_ops (5 ∷ 6 ∷ []) (full_chamber.conns 0).send_queue.buffer
              ++ close_frame ∷ [],
        ))
unfolding join_client start_manager new_room lookup insert
removed_client_told_example =
    removed_client_told whole_ops 0 full_chamber (5 ∷ 6 ∷ []) full_chamber-Inv refl hello-AreTyped
      refl
