-- ===== src/Manager/Invariant.antt =====
-- What holds between two rounds of a room's manager.
use vchamber.Prelude.{◌≡◌, ◌≢◌, ◌⊎◌, true, false, not, none, some, [], All, int_eq, is_armed}
use vchamber.Wire.{
  Message, state_update, PlaybackStateMessage, PlaybackStateUpdateMessage,
  message_type_state_update,
}
use vchamber.Conn.{ClientConn, Turn, again, returned}
use vchamber.Room.{Chamber}
use vchamber.Room.Invariant as RoomInvariant
use vchamber.Room.Invariant.{IsFresh}
use vchamber.Manager.{
  Manager, Event, cooldown_over, message_in, client_in, client_out, ticked, shutdown,
}

-- A state update that carries a state.
abbrev pub IsUpdate : Message → Type 0
IsUpdate m =
    (p : PlaybackStateUpdateMessage) × (s : PlaybackStateMessage) × (m.payload ≡ state_update p)
    × (p.state ≡ some s)

-- A message whose type is that of an update is one.
abbrev pub IsSound : Message → Type 0
IsSound m = int_eq m.type message_type_state_update ≡ true → IsUpdate m

pub record Inv (mg : Manager) : Type 0 where
  pub room : RoomInvariant.Inv mg.chamber
  pub queue_open : mg.chamber.room.recv_queue.closed ≡ false
  pub queue_sound : All IsSound mg.chamber.room.recv_queue.buffer
  pub buffered_sound : (m : Message) → mg.buffered_update ≡ some m → IsUpdate m
  -- the cooldown timer is out exactly while there is an update to apply
  pub cooldown_off :
      mg.buffered_update ≡ none
      → (is_armed mg.update_cooldown_timer ≡ false) × (mg.update_cooldown_timer.fired ≡ false)
  pub cooldown_on :
      (m : Message)
      → mg.buffered_update ≡ some m
      → is_armed mg.update_cooldown_timer ≡ not mg.update_cooldown_timer.fired
  -- the shutdown timer is out while there is no master, and is not armed while there is one
  pub masterless :
      mg.chamber.room.masters ≡ []
      → (is_armed mg.shutdown_timer ≡ true) ⊎ (mg.shutdown_timer.fired ≡ true)
  pub mastered : mg.chamber.room.masters ≢ [] → is_armed mg.shutdown_timer ≡ false

-- The clients that arrive are new; nil comes only from a closed channel.
abbrev pub IsAdmissible : Event → Manager → Type 0
IsAdmissible (client_in none) mg = ⊥
IsAdmissible (client_in (some c)) mg = IsFresh c mg.chamber
IsAdmissible (client_out none) mg = ⊥
IsAdmissible (client_out (some c)) mg = Unit
IsAdmissible cooldown_over mg = Unit
IsAdmissible message_in mg = Unit
IsAdmissible ticked mg = Unit
IsAdmissible shutdown mg = Unit

abbrev pub IsEmpty : Chamber → Type 0
IsEmpty ch = (ch.room.clients ≡ []) × (ch.room.masters ≡ [])

abbrev pub IsClosed : ClientConn → Type 0
IsClosed c = (c.closing.closed ≡ true) × (c.send_queue.closed ≡ true)

-- After a round the invariant holds again; a manager that returns leaves an empty room.
abbrev pub Kept : Turn Manager → Type 0
Kept (again mg) = Inv mg
Kept (returned mg) = IsEmpty mg.chamber
