-- ===== src/Manager/Showing.antt =====
-- An update that is applied, from the room's queue to the clients' queues.
use vchamber.Prelude.{
  ◌≡◌, refl, false, true, some, String, lookup, if◌then◌else◌, Returns, Returns-map, bind-Returns,
}
use vchamber.Wire.{
  Float64, Time, FloatOps, Message, PlaybackStateMessage, PlaybackStateUpdateMessage,
  state_broadcast, message_type_state_broadcast,
}
use vchamber.Playback.{since, update_state, get_current_state_message}
use vchamber.Playback.Updates.{seen, update_seen}
use vchamber.Conn.{ClientConn}
use vchamber.Room.{ClientRef, Chamber, broadcast_state}
use vchamber.Room.Invariant as RoomInvariant
use vchamber.Room.Invariant.{same-Inv}
use vchamber.Room.Delivery.{queued, Spacious}
use vchamber.Room.Broadcast.{broadcast_state_delivers}
use vchamber.Manager.{Manager, Readings, apply_update, take_update, on_message_in}
use vchamber.Manager.Steps.{AllSame-refl, taken}
use vchamber.Manager.Updates.{Arrived, is_cool, taken_update}

-- One more message waits for a client, a broadcast of exactly this state.
abbrev pub Shown : PlaybackStateMessage → ClientConn → ClientConn → Type 0
Shown s c d =
    (b : Message) × (d ≡ queued b c)
    × (b.type ≡ message_type_state_broadcast)
    × (b.payload ≡ state_broadcast s)

abbrev pub ShownToAll : PlaybackStateMessage → Chamber → Chamber → Type 0
ShownToAll s ch ch' =
    (k : String) (c : ClientRef)
    → lookup k ch.room.clients ≡ some c
    → Shown s (ch.conns c) (ch'.conns c)

-- A master's state, received at a time, when one looks at it in a round.
abbrev pub seen_at :
    FloatOps → Readings → Time → PlaybackStateMessage → Float64 → Time → PlaybackStateMessage
seen_at fl at got s rtt looked = seen fl s rtt (since at.applied got) (since looked at.stamped)

-- It is not past its end in the round.
abbrev pub IsWithin : FloatOps → Readings → Time → PlaybackStateMessage → Float64 → Type 0
IsWithin fl at got s rtt =
    fl.gt (seen_at fl at got s rtt at.shown.checked).position s.duration ≡ false

module _ (fl : FloatOps) (at : Readings) (m : Message) (p : PlaybackStateUpdateMessage)
    (s : PlaybackStateMessage) (e : p.state ≡ some s)
    (within : IsWithin fl at m.received_at s p.rtt) where
  abbrev shown : PlaybackStateMessage
  shown = seen_at fl at m.received_at s p.rtt at.shown.sent

  pub apply_update-ShownToAll :
      (ch : Chamber)
      → RoomInvariant.Inv ch
      → Spacious ch.room.clients ch.conns
      → Returns (apply_update fl at m p ch) (ShownToAll shown ch)
  unfolding apply_update
  apply_update-ShownToAll ch v space =
      bind-Returns (update_state fl p (since at.applied m.received_at) at.stamped ch.room.state) _ _
        _ (update_seen fl p s _ at.stamped ch.room.state at.shown e within)
        (λ st (same, ty, pl).
          Returns-map
            (broadcast_state fl at.shown (record ch { room = record ch.room { state = st } })) _ _
            (broadcast_state_delivers fl at.shown
              (record ch { room = record ch.room { state = st } })
              (same-Inv ch _ refl refl (AllSame-refl ch.conns) v) space)
            (λ ch' (room, to, others) k c h.
              ((get_current_state_message fl at.shown st).1, to k c h, ty, pl)))

  pub on_message_in-ShownToAll :
      (mg : Manager)
      → Arrived mg m p
      → is_cool at mg ≡ true
      → RoomInvariant.Inv mg.chamber
      → Spacious mg.chamber.room.clients mg.chamber.conns
      → Returns (on_message_in fl at mg) (λ mg'. ShownToAll shown mg.chamber mg'.chamber)
  unfolding take_update
  on_message_in-ShownToAll mg a cool v space = rw (taken_update fl at mg m p a) (
      rw (cool, if◌then◌else◌)
        (bind-Returns (apply_update fl at m p (taken fl at mg a.rest).chamber) _
          (ShownToAll shown mg.chamber) _
          (apply_update-ShownToAll (taken fl at mg a.rest).chamber
            (same-Inv mg.chamber _ refl refl (AllSame-refl mg.chamber.conns) v) space)
          (λ ch h. h)))
