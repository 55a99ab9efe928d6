-- ===== src/System/Relay.antt =====
-- A state update from a master's websocket to the websockets of the room's clients.
use vchamber.Prelude.{
  ◌≡◌, subst, ◌<◌, refl, sym, ap, true, none, some, [], ◌∷◌, String, Chan, recv, send, false,
  lookup, update, Returns, Returns-map, ok, arith,
}
use vchamber.Wire.{
  Float64, Time, FloatOps, Message, PlaybackStateMessage, message_type_state_update, state_update,
  state_broadcast, message_type_state_broadcast,
}
use vchamber.Codec.{Json, serialise, zero_message, deserialise}
use vchamber.Codec.RoundTrip.{
  JsonLaws, StateWritable, PayloadWritable, Fits, arrived, deserialise-serialise,
}
use vchamber.Conn.{ClientConn, is_master, on_queue, handle_vchamber_client, again}
use vchamber.Conn.Authority.{state_of}
use vchamber.Receive.{frame, handle_ws_client_recv}
use vchamber.Receive.Arrival.{IsListening, holding, emptied, handle_ws_client_recv-serialise}
use vchamber.Room.{ClientRef}
use vchamber.Room.Delivery.{Spacious, queued}
use vchamber.Manager.{Manager, Readings, on_message_in}
use vchamber.Manager.Invariant.{Inv}
use vchamber.Room.Invariant.{same-Inv}
use vchamber.Manager.Steps.{AllSame-refl}
use vchamber.Manager.Rounds.{with_conns, with_queue}
use vchamber.Manager.Updates.{is_cool}
use vchamber.Manager.Showing.{IsWithin, seen_at, Shown, on_message_in-ShownToAll}

-- The master's message.
abbrev pub update_of : PlaybackStateMessage → Float64 → Message
update_of s rtt = record {
  sender = "";
  received_at = 0;
  type = message_type_state_update;
  payload = state_update (record { state = some s; rtt = rtt });
}

-- The manager when the connection has handled a message.
abbrev pub handed_over : ClientRef → Manager → ClientConn × Chan Message → Manager
handed_over r mg (c, q) = with_queue (with_conns mg (update mg.chamber.conns r c)) q

emptied_lem : (c : ClientConn) → IsListening c → emptied c ≡ c
emptied_lem c l =
    ap (λ b. record c { recv_queue = record c.recv_queue { buffer = b } }) (sym l.nothing_waits)

same_conns :
    (r : ClientRef) (mg : Manager)
    → IsListening (mg.chamber.conns r)
    → update mg.chamber.conns r (emptied (mg.chamber.conns r)) ≡ mg.chamber.conns
same_conns r mg l = λ i c. pointwise c i
  where
    pointwise :
        (c : ClientRef)
        → update mg.chamber.conns r (emptied (mg.chamber.conns r)) c ≡ mg.chamber.conns c
    pointwise c = ground (arith, emptied_lem (mg.chamber.conns r) l)

forwarded :
    (m : Message) (c : ClientConn) (q : Chan Message)
    → m.type ≡ message_type_state_update
    → is_master c.state ≡ true
    → q.buffer ≡ []
    → q.closed ≡ false
    → 0 < q.capacity
    → handle_vchamber_client on_queue (holding m c) q
      ≡ ok (again (emptied c, record q { buffer = record m { sender = c.id } ∷ [] }))
unfolding handle_vchamber_client recv send
forwarded m c q e master idle unclosed space = ground arith

-- The room's queue with the update.
abbrev filled : String → Time → PlaybackStateMessage → Float64 → Chan Message → Chan Message
filled k got s rtt q = record q {
  buffer = record (arrived got (update_of s rtt)) { sender = k } ∷ [];
}

-- One more message waits for the client, which will read exactly this state from it.
abbrev pub Reads : Json → PlaybackStateMessage → ClientConn → ClientConn → Type 0
Reads json s c d =
    (b : Message) × (d ≡ queued b c)
    × ((later : Time)
        → deserialise json later (serialise json b).0 zero_message ≡ (
          record {
            sender = "";
            received_at = later;
            type = message_type_state_broadcast;
            payload = state_broadcast s;
          },
          none,
        ))

module _ (IsFinite : Float64 → Type 0) (json : Json) (laws : JsonLaws IsFinite json) where
  Shown-Reads :
      (s : PlaybackStateMessage)
      → StateWritable IsFinite s
      → (c d : ClientConn) → Shown s c d
      → Reads json s c d
  Shown-Reads s f c d (b, e, ty, pl) = (
    b,
    e,
    λ later.
        rw
          ((deserialise-serialise IsFinite json laws later b (subst (Fits b.type) (sym pl) ty)
            (subst (PayloadWritable IsFinite) (sym pl) f)).1)
          (rw (ty, pl) refl),
  )

  -- A master's state, from end to end. When the goroutine for a master's connection, which is open
  -- with all that was received handled, reads an update that the master has serialised, hands it to
  -- the well-formed manager, whose queue is empty and takes a message, and the manager takes it from
  -- there after the cooldown, with space in every client's queue, then none of them waits or panics,
  -- and every client of the room has one more message to be sent, from which it will read the
  -- master's state: exactly that state if it is not playing, and otherwise with its position moved by
  -- the speed times the time since, first half a round trip, not less than nothing, and the wait for
  -- the manager, and then the time in the room. This is so if the floats are finite and the status is
  -- of 64 bits, the position is not past the end in the round, and encoding/json reads back what it
  -- writes of such messages.
  pub update_relayed :
      (fl : FloatOps) (at : Readings) (s : PlaybackStateMessage) (rtt : Float64) (got : Time)
      (mg : Manager) (r : ClientRef)
      → StateWritable IsFinite s
      → IsFinite rtt
      → StateWritable IsFinite (seen_at fl at got s rtt at.shown.sent)
      → IsWithin fl at got s rtt
      → Inv mg
      → is_master (mg.chamber.conns r).state ≡ true
      → IsListening (mg.chamber.conns r)
      → mg.chamber.room.recv_queue.buffer ≡ []
      → 0 < mg.chamber.room.recv_queue.capacity
      → is_cool at mg ≡ true
      → Spacious mg.chamber.room.clients mg.chamber.conns
      → Returns
          (handle_ws_client_recv json got
            (frame (serialise json (update_of s rtt)).0)
            (mg.chamber.conns r))
          (λ t.
            Returns (handle_vchamber_client on_queue (state_of t) mg.chamber.room.recv_queue) (λ u.
              Returns (on_message_in fl at (handed_over r mg (state_of u))) (λ mg'.
                (k : String) (c : ClientRef)
                → lookup k mg.chamber.room.clients ≡ some c
                → Reads json
                    (seen_at fl at got s rtt at.shown.sent)
                    (mg.chamber.conns c)
                    (mg'.chamber.conns c))))
  update_relayed fl at s rtt got mg r f g h within v master l idle space cool spacious =
      rw
        (handle_ws_client_recv-serialise IsFinite json laws got (update_of s rtt)
          (mg.chamber.conns r) l refl (f, g))
        (rw
          (forwarded (arrived got (update_of s rtt)) (mg.chamber.conns r) mg.chamber.room.recv_queue
            refl master idle v.queue_open space)
          (rw (same_conns r mg l) (
            Returns-map
              (on_message_in fl at (
                with_queue mg
                  (filled (mg.chamber.conns r).id got s rtt mg.chamber.room.recv_queue)))
              _ _
              (on_message_in-ShownToAll fl at
                (record (arrived got (update_of s rtt)) { sender = (mg.chamber.conns r).id })
                (record { state = some s; rtt = rtt }) s refl within
                (with_queue mg
                  (filled (mg.chamber.conns r).id got s rtt mg.chamber.room.recv_queue))
                (record { rest = []; first = refl; typed = refl; carried = refl }) cool
                (same-Inv mg.chamber _ refl refl (AllSame-refl mg.chamber.conns) v.room) spacious)
              (λ mg' shown k c i.
                Shown-Reads (seen_at fl at got s rtt at.shown.sent) h (mg.chamber.conns c)
                  (mg'.chamber.conns c) (shown k c i)))))
