-- ===== src/Manager/Updates.antt =====
-- What becomes of a master's state update.
use vchamber.Prelude.{
  ◌≡◌, refl, ◌⊎◌, inl, inr, Bool, true, false, none, some, Option-cases, List, [], ◌∷◌, is_armed,
  if◌then◌else◌, recv, recv_closed, panic, nil_dereference, Safely, bind-Safely, Returns, arith,
  ltb, int_eq_self,
}
use vchamber.Wire.{
  FloatOps, Message, state_update, PlaybackStateMessage, PlaybackStateUpdateMessage,
  message_type_state_update,
}
use vchamber.Playback.{since, update_state}
use vchamber.Room.Invariant as RoomInvariant
use vchamber.Room.Invariant.{same-Inv, Keeps}
use vchamber.Manager.{
  Manager, Readings, update_cooldown, apply_update, buffer, take_update, on_message_in,
}
use vchamber.Manager.Steps.{asserted, apply_update-Keeps, AllSame-refl, taken}
use vchamber.Manager.Invariant.{Inv}

-- The update at the head of the room's queue.
pub record Arrived (mg : Manager) (m : Message) (p : PlaybackStateUpdateMessage) : Type 0 where
  pub rest : List Message
  pub first : mg.chamber.room.recv_queue.buffer ≡ m ∷ rest
  pub typed : m.type ≡ message_type_state_update
  pub carried : m.payload ≡ state_update p

-- The cooldown since the last change of the state is over.
abbrev pub is_cool : Readings → Manager → Bool
is_cool at mg = ltb update_cooldown (since at.compared mg.chamber.room.state.last_updated)

module _ (fl : FloatOps) (at : Readings) (mg : Manager) (m : Message)
    (p : PlaybackStateUpdateMessage) (a : Arrived mg m p) where
  pub taken_update : on_message_in fl at mg ≡ take_update fl at m p (taken fl at mg a.rest)
  unfolding on_message_in recv
  taken_update =
      rw (a.first, recv)
        (ground (arith, a.typed, int_eq_self m.type, asserted m.payload p a.carried))

  -- In the cooldown an update that a well-formed manager reads is kept for later, in place of any
  -- that was kept before: nothing is sent, the room's state is as it was, and the cooldown timer is
  -- armed or out.
  pub update_buffered :
      Inv mg
      → is_cool at mg ≡ false
      → Returns (on_message_in fl at mg) (λ mg'.
        (mg'.buffered_update ≡ some m)
        × (mg'.chamber.room.state ≡ mg.chamber.room.state)
        × (mg'.chamber.conns ≡ mg.chamber.conns)
        × ((is_armed mg'.update_cooldown_timer ≡ true) ⊎ (mg'.update_cooldown_timer.fired ≡ true)))
  unfolding take_update buffer
  update_buffered v hot = elim (Option-cases mg.buffered_update) [
    | inl off ↦ rw taken_update (ground (arith, v.cooldown_off off))
    | inr (old, on) ↦ rw taken_update (ground (arith, v.cooldown_on old on))
  ]

  -- A master may crash the server: an update without a state, at the head of the room's queue when
  -- the cooldown is over, is a panic.
  pub nil_state_panics :
      p.state ≡ none → is_cool at mg ≡ true → on_message_in fl at mg ≡ panic nil_dereference
  unfolding take_update apply_update update_state
  nil_state_panics e cool = rw taken_update (ground arith)

  -- After the cooldown an update is applied at once, and the buffer stays as it is.
  pub update_applied :
      (s : PlaybackStateMessage)
      → Inv mg
      → p.state ≡ some s
      → is_cool at mg ≡ true
      → Safely (on_message_in fl at mg) (λ mg'.
        (mg'.buffered_update ≡ mg.buffered_update)
        × RoomInvariant.Inv mg'.chamber
        × (mg'.chamber.room.clients ≡ mg.chamber.room.clients))
  unfolding take_update
  update_applied s v e cool = rw taken_update (
      rw (cool, if◌then◌else◌)
        (bind-Safely (apply_update fl at m p (taken fl at mg a.rest).chamber) _
          (Keeps (taken fl at mg a.rest).chamber) _
          (apply_update-Keeps fl at m p s (taken fl at mg a.rest).chamber e taken_room)
          (λ ch k. (refl, k.0, k.1))))
    where
      taken_room : RoomInvariant.Inv (taken fl at mg a.rest).chamber
      taken_room = same-Inv mg.chamber _ refl refl (AllSame-refl mg.chamber.conns) v.room

-- The manager takes nil from a closed and empty queue for a message.
pub closed_queue_panics :
    (fl : FloatOps) (at : Readings) (mg : Manager)
    → mg.chamber.room.recv_queue.buffer ≡ []
    → mg.chamber.room.recv_queue.closed ≡ true
    → on_message_in fl at mg ≡ panic nil_dereference
unfolding on_message_in
closed_queue_panics fl at mg e h = rw (recv_closed mg.chamber.room.recv_queue e h) refl
