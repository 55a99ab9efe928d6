-- ===== src/Tests/Data.antt =====
-- A room, a master and a guest, and the manager at three moments.
use vchamber.Prelude.{
  ℕ, refl, inr, true, false, none, some, if◌then◌else◌, ◌==◌, lookup, insert, Timer,
}
use vchamber.Wire.{Message, message_type_ping, ping, one_float}
use vchamber.Conn.{ClientConn, client_state_master, client_state_guest}
use vchamber.Room.{ClientRef, Chamber, join_client, new_room}
use vchamber.Room.Invariant as RoomInvariant
use vchamber.Room.Invariant.{IsFresh, join-Inv}
use vchamber.Manager.{Manager, Readings, start_manager}
use vchamber.Manager.Invariant.{Inv}
use vchamber.Manager.Clients.{with_timer, with_timer-Inv}
use vchamber.Manager.Rounds.{new_manager, new_manager-Inv}
use vchamber.Handshake.Access.{greeted}

-- A master, and a guest for every other reference.
abbrev pub conns : ClientRef → ClientConn
conns c = if c == 0 then greeted "m" client_state_master else greeted "g" client_state_guest

abbrev pub at : ℕ → Readings
at t = record {
  compared = t;
  applied = t;
  stamped = t;
  shown = record { checked = t; ended = t; sent = t };
  rearmed = t;
}

abbrev pub fresh_manager : Manager
fresh_manager = new_manager 0 "room" "master key" "guest key" conns

pub fresh_manager-Inv : Inv fresh_manager
fresh_manager-Inv = new_manager-Inv 0 "room" "master key" "guest key" conns

pub master-IsFresh : IsFresh 0 fresh_manager.chamber
unfolding start_manager new_room lookup
master-IsFresh = record { new_id = refl; not_closing = refl; sendable = refl }

guest-IsFresh : IsFresh 1 fresh_manager.chamber
unfolding start_manager new_room lookup
guest-IsFresh = record { new_id = refl; not_closing = refl; sendable = refl }

-- The guest alone.
abbrev pub guest_chamber : Chamber
guest_chamber = join_client (some 1) fresh_manager.chamber

pub guest_chamber-Inv : RoomInvariant.Inv guest_chamber
guest_chamber-Inv = join-Inv 1 fresh_manager.chamber guest-IsFresh fresh_manager-Inv.room

second-IsFresh : IsFresh 0 guest_chamber
unfolding start_manager new_room lookup join_client insert
second-IsFresh = record { new_id = refl; not_closing = refl; sendable = refl }

-- The guest and the master.
abbrev pub full_chamber : Chamber
full_chamber = join_client (some 0) guest_chamber

pub full_chamber-Inv : RoomInvariant.Inv full_chamber
full_chamber-Inv = join-Inv 0 guest_chamber second-IsFresh guest_chamber-Inv

abbrev pub expired : Timer
expired = record { deadline = none; fired = true }

abbrev pub stopped : Timer
stopped = record { deadline = none; fired = false }

-- The guest alone, when the shutdown timer has gone off.
abbrev pub late_manager : Manager
late_manager = with_timer fresh_manager guest_chamber expired

pub late_manager-Inv : Inv late_manager
unfolding start_manager new_room join_client
late_manager-Inv =
    with_timer-Inv fresh_manager guest_chamber expired fresh_manager-Inv guest_chamber-Inv refl
      (λ e. inr refl, λ n. refl)

-- The guest and the master, with the shutdown timer off.
abbrev pub full_manager : Manager
full_manager = with_timer fresh_manager full_chamber stopped

pub full_manager-Inv : Inv full_manager
unfolding start_manager new_room join_client lookup insert
full_manager-Inv =
    with_timer-Inv fresh_manager full_chamber stopped fresh_manager-Inv full_chamber-Inv refl
      (λ e. cc, λ n. refl)

abbrev pub ping_message : Message
ping_message = record {
  sender = "";
  received_at = 7;
  type = message_type_ping;
  payload = ping (record { timestamp = one_float });
}
