-- ===== src/Tests/Managers.antt =====
-- Rounds of a room's manager.
use vchamber.Prelude.{
  ◌<◌, ◌≡◌, refl, inr, true, false, blocked, some, lookup, expire, Returns, Safely, arith,
  if◌then◌else◌, ◌==◌,
}
use vchamber.Playback.{update_state, get_current_state_message}
use vchamber.Playback.Laws.{whole_ops, whole_laws}
use vchamber.Playback.Updates.{update_seen}
use vchamber.Wire.{
  PlaybackStateMessage, playback_status_paused, zero_float, state_broadcast,
  message_type_state_broadcast, PlaybackState, playback_status_playing,
}
use vchamber.Playback.Bounds.{shown, shown_mono, shown_overshoot}
use vchamber.Handshake.Access.{greeted}
use vchamber.Conn.{client_state_master, ClientConn}
use vchamber.Room.{ClientRef, new_room}
use vchamber.Manager.{
  Manager, start_manager, on_client_in, on_client_out, on_shutdown, end_manager, client_out,
  run_manager,
}
use vchamber.Manager.Invariant.{Inv, IsEmpty, Kept}
use vchamber.Manager.Clients.{with_timer, with_timer-Inv}
use vchamber.Manager.Shutdown.{IsEmptied, end_manager_empties}
use vchamber.Manager.Rounds.{new_manager, new_manager-Inv, run_manager-Kept}
use vchamber.Manager.Late.{late_shutdown}
use vchamber.Room.Invariant.{IsFresh}
use vchamber.Tests.Data.{
  at, conns, expired, fresh_manager, late_manager, late_manager-Inv, full_manager, full_manager-Inv,
}

run_manager-Kept_example :
    Safely (run_manager whole_ops (at 5) (client_out (some 0)) full_manager) Kept
run_manager-Kept_example =
    run_manager-Kept whole_ops (at 5) (client_out (some 0)) full_manager tt full_manager-Inv

-- The room after its shutdown timer has gone off.
abbrev timed_out : Manager
timed_out = record fresh_manager {
  shutdown_timer = expire 400000000000 fresh_manager.shutdown_timer;
}

end_manager_empties_example :
    Returns (end_manager true late_manager) (IsEmptied late_manager)
    × (end_manager false late_manager ≡ blocked)
end_manager_empties_example = end_manager_empties late_manager late_manager-Inv refl

abbrev film : PlaybackState
film = record {
  source = "film";
  status = playback_status_playing;
  position = record { bits = 10 };
  speed = record { bits = 1 };
  duration = record { bits = 100 };
  last_updated = 5;
}

shown_mono_example :
    whole_ops.gt
      (shown whole_ops (at 20).shown film)
      (shown whole_ops (at 200).shown (get_current_state_message whole_ops (at 20).shown film).0)
    ≡ false
shown_mono_example =
    shown_mono whole_ops whole_laws (at 20).shown (at 200).shown film refl refl (omega arith)

shown_overshoot_example : 20 < 200
unfolding get_current_state_message
shown_overshoot_example =
    shown_overshoot whole_ops whole_laws (record { checked = 20; ended = 20; sent = 200 }) film
      (omega arith) refl

-- A master that is no longer in the room, and one that is about to come in.
abbrev two_masters : ClientRef → ClientConn
two_masters c = if c == 2 then greeted "gone" client_state_master else conns c

abbrev empty_manager : Manager
empty_manager = new_manager 0 "room" "master key" "guest key" two_masters

-- The empty room, when its shutdown timer has gone off.
abbrev masterless_manager : Manager
masterless_manager = with_timer empty_manager empty_manager.chamber expired

masterless_manager-Inv : Inv masterless_manager
masterless_manager-Inv =
    let v = new_manager-Inv 0 "room" "master key" "guest key" two_masters in
    with_timer-Inv empty_manager empty_manager.chamber expired v v.room refl
      (λ e. inr refl, λ n. refl)

newcomer-IsFresh : IsFresh 0 masterless_manager.chamber
unfolding start_manager new_room lookup
newcomer-IsFresh = record { new_id = refl; not_closing = refl; sendable = refl }

late_shutdown_example : Returns (on_client_out (at 5) (some 2) masterless_manager) (λ mg₁.
    Returns (on_client_in whole_ops (at 6) (some 0) mg₁) (λ mg₂.
      (lookup "m" mg₂.chamber.room.masters ≡ some 0)
      × Returns (on_shutdown mg₂) (λ mg₃. IsEmpty mg₃.chamber)))
unfolding start_manager new_room lookup
late_shutdown_example =
    late_shutdown whole_ops (at 5) (at 6) 2 0 masterless_manager masterless_manager-Inv refl refl
      refl (λ e. cc) newcomer-IsFresh refl (omega arith)

abbrev paused : PlaybackStateMessage
paused = record {
  source = "film";
  status = playback_status_paused;
  position = record { bits = 10 };
  speed = record { bits = 1 };
  duration = record { bits = 100 };
}

-- Six units in the three readings of the clock before the update is applied, eight in the four after.
abbrev moving : PlaybackStateMessage
moving = record paused {
  status = playback_status_playing;
  position = record { bits = 10 };
  speed = record { bits = 2 };
  duration = record { bits = 100 };
}

update_seen_example :
    Returns
      (update_state whole_ops (record { state = some moving; rtt = zero_float }) 3 5 film)
      (λ st'.
        ((get_current_state_message whole_ops (at 9).shown st').0 ≡ st')
        × ((get_current_state_message whole_ops (at 9).shown st').1.type
            ≡ message_type_state_broadcast)
        × ((get_current_state_message whole_ops (at 9).shown st').1.payload
            ≡ state_broadcast (record moving { position = record { bits = 24 } })))
update_seen_example =
    update_seen whole_ops (record { state = some moving; rtt = zero_float }) moving 3 5 film
      (at 9).shown refl refl
