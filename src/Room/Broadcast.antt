-- ===== src/Room/Broadcast.antt =====
-- BroadcastState and SendState: who gets a message.
use vchamber.Prelude.{
  ◌≡◌, ◌≢◌, refl, some, String, ◌<◌, ◌≤◌, length, lookup, ok, blocked, Returns, Safely, bind-Safely,
  update,
}
use vchamber.Wire.{FloatOps}
use vchamber.Playback.{Instants, get_current_state_message}
use vchamber.Room.{ClientRef, Chamber, send_all, broadcast_state, send_state, send_found}
use vchamber.Room.Invariant.{Inv, AllSame, Keeps, same-Inv}
use vchamber.Room.Delivery.{
  Live, Spacious, deliver_client, deliver_other, queued, send_all-AllSame, send_all-Returns,
  send_all_full, send_found-AllSame, send_to-Returns,
}

module _ (fl : FloatOps) (at : Instants) (ch : Chamber) (v : Inv ch) where
  room-Live : Live ch.room.clients ch.conns
  room-Live k c h = (v.live k c h).1

  -- A broadcast to a well-formed room never panics, and keeps the room well formed.
  pub broadcast_state-Keeps : Safely (broadcast_state fl at ch) (Keeps ch)
  unfolding broadcast_state
  broadcast_state-Keeps =
      bind-Safely
        (send_all (get_current_state_message fl at ch.room.state).1 ch.room.clients ch.conns) _
        (AllSame ch.conns) (Keeps ch)
        (send_all-AllSame (get_current_state_message fl at ch.room.state).1 ch.room.clients ch.conns
          v.clients_distinct room-Live)
        (λ conns same. (same-Inv ch _ refl refl same v, refl, refl, refl))

  -- If every client of a well-formed room has space in its queue, the broadcast completes: the
  -- message with the current state goes to the end of the queue of each client of the room, nobody
  -- else's connection changes, and of the room only the playback state.
  pub broadcast_state_delivers :
      Spacious ch.room.clients ch.conns
      → Returns (broadcast_state fl at ch) (λ ch'.
        let (st, m) = get_current_state_message fl at ch.room.state in
        (ch'.room ≡ record ch.room { state = st })
        × ((k : String) (c : ClientRef)
            → lookup k ch.room.clients ≡ some c
            → ch'.conns c ≡ queued m (ch.conns c))
        × ((c : ClientRef)
            → ((k : String) → lookup k ch.room.clients ≢ some c)
            → ch'.conns c ≡ ch.conns c))
  unfolding broadcast_state
  broadcast_state_delivers space =
      rw
        (send_all-Returns (get_current_state_message fl at ch.room.state).1 ch.room.clients ch.conns
          v.clients_distinct v.keyed room-Live space)
        (
          refl,
          λ k c h. deliver_client _ ch.room.clients ch.conns k c v.clients_distinct v.keyed h,
          λ c h. deliver_other _ ch.room.clients ch.conns c v.clients_distinct h,
        )

  -- If the queue of one client of a well-formed room is full, the broadcast waits, whatever the
  -- others do.
  pub broadcast_state_blocks :
      (k : String) (c : ClientRef)
      → lookup k ch.room.clients ≡ some c
      → (ch.conns c).send_queue.capacity ≤ length (ch.conns c).send_queue.buffer
      → broadcast_state fl at ch ≡ blocked
  unfolding broadcast_state
  broadcast_state_blocks k c h full =
      rw
        (send_all_full (get_current_state_message fl at ch.room.state).1 ch.room.clients ch.conns k
          c v.clients_distinct v.keyed room-Live h full)
        refl

  pub send_state-Keeps : (k : String) → Safely (send_state fl at k ch) (Keeps ch)
  unfolding send_state
  send_state-Keeps k =
      bind-Safely
        (send_found (get_current_state_message fl at ch.room.state).1 (lookup k ch.room.clients)
          ch.conns)
        _ (AllSame ch.conns) (Keeps ch)
        (send_found-AllSame (get_current_state_message fl at ch.room.state).1
          (lookup k ch.room.clients) ch.conns (room-Live k))
        (λ conns same. (same-Inv ch _ refl refl same v, refl, refl, refl))

  -- The state goes to one client of the room.
  pub send_state_delivers :
      (k : String) (c : ClientRef)
      → lookup k ch.room.clients ≡ some c
      → length (ch.conns c).send_queue.buffer < (ch.conns c).send_queue.capacity
      → let (st, m) = get_current_state_message fl at ch.room.state in
        send_state fl at k ch
        ≡ ok (record {
          room = record ch.room { state = st };
          conns = update ch.conns c (queued m (ch.conns c));
        })
  unfolding send_state
  send_state_delivers k c h space = rw h (
      rw
        (send_to-Returns (get_current_state_message fl at ch.room.state).1 c ch.conns
          (room-Live k c h) space)
        refl)
