-- ===== src/Tests/Updates.antt =====
-- Updates of a master, at once and buffered.
use vchamber.Prelude.{
  ◌≡◌, ◌⊎◌, refl, true, false, Option, none, some, [], ◌∷◌, String, lookup, arith, is_armed, panic,
  nil_dereference, Returns,
}
use vchamber.Wire.{
  Message, PlaybackStateMessage, PlaybackStateUpdateMessage, message_type_state_update,
  state_update, playback_status_playing, zero_float,
}
use vchamber.Playback.Laws.{whole_ops}
use vchamber.Conn.{ClientConn, client_state_master}
use vchamber.Room.{new_room}
use vchamber.Room.Invariant.{same-Inv}
use vchamber.Manager.{Manager, start_manager, on_message_in, on_cooldown_over}
use vchamber.Manager.Invariant.{Inv}
use vchamber.Manager.Updates.{Arrived, update_buffered, nil_state_panics}
use vchamber.Manager.Showing.{ShownToAll, seen_at}
use vchamber.Manager.Stale.{IsRoomy, stale_update_wins}
use vchamber.Manager.Rounds.{with_queue}
use vchamber.Handshake.Access.{greeted}
use vchamber.Tests.Data.{at, expired, fresh_manager, fresh_manager-Inv}

abbrev film : String → PlaybackStateMessage
film source = record {
  source = source;
  status = playback_status_playing;
  position = zero_float;
  speed = record { bits = 1 };
  duration = record { bits = 9000000000000 };
}

abbrev update_of : Option PlaybackStateMessage → PlaybackStateUpdateMessage
update_of s = record { state = s; rtt = zero_float }

abbrev message_of : Option PlaybackStateMessage → Message
message_of s = record {
  sender = "m";
  received_at = 4;
  type = message_type_state_update;
  payload = state_update (update_of s);
}

-- A manager with one message to read, and another in its buffer or none.
abbrev reading : Option PlaybackStateMessage → Manager
reading s =
    with_queue fresh_manager (record { buffer = message_of s ∷ []; capacity = 256; closed = false })

reading-Arrived :
    (s : Option PlaybackStateMessage) → Arrived (reading s) (message_of s) (update_of s)
reading-Arrived s = record { rest = []; first = refl; typed = refl; carried = refl }

reading-Inv : (s : PlaybackStateMessage) → Inv (reading (some s))
unfolding start_manager new_room
reading-Inv s = record {
  room =
      same-Inv fresh_manager.chamber _ refl refl (λ c. (refl, refl, refl, refl))
        fresh_manager-Inv.room;
  queue_open = refl;
  queue_sound = (λ e. (update_of (some s), s, refl, refl), tt);
  buffered_sound = fresh_manager-Inv.buffered_sound;
  cooldown_off = fresh_manager-Inv.cooldown_off;
  cooldown_on = fresh_manager-Inv.cooldown_on;
  masterless = fresh_manager-Inv.masterless;
  mastered = fresh_manager-Inv.mastered;
}

update_buffered_example :
    Returns (on_message_in whole_ops (at 5) (reading (some (film "a")))) (λ mg'.
      (mg'.buffered_update ≡ some (message_of (some (film "a"))))
      × (mg'.chamber.room.state ≡ fresh_manager.chamber.room.state)
      × (mg'.chamber.conns ≡ fresh_manager.chamber.conns)
      × ((is_armed mg'.update_cooldown_timer ≡ true) ⊎ (mg'.update_cooldown_timer.fired ≡ true)))
unfolding start_manager new_room
update_buffered_example =
    update_buffered whole_ops (at 5) (reading (some (film "a"))) (message_of (some (film "a")))
      (update_of (some (film "a"))) (reading-Arrived (some (film "a"))) (reading-Inv (film "a"))
      refl

nil_state_panics_example :
    on_message_in whole_ops (at 5000000000) (reading none) ≡ panic nil_dereference
unfolding start_manager new_room
nil_state_panics_example =
    nil_state_panics whole_ops (at 5000000000) (reading none) (message_of none) (update_of none)
      (reading-Arrived none) refl refl

-- The film "b" is to be read, and the film "a" was buffered before it.
abbrev overtaking : Manager
overtaking = record (reading (some (film "b"))) {
  buffered_update = some (message_of (some (film "a")));
  update_cooldown_timer = expired;
}

overtaking-Inv : Inv overtaking
overtaking-Inv =
    let v = reading-Inv (film "b") in
    record {
      room = v.room;
      queue_open = v.queue_open;
      queue_sound = v.queue_sound;
      buffered_sound = λ m e. (update_of (some (film "a")), film "a", ground arith, refl);
      cooldown_off = λ e. cc;
      cooldown_on = λ m e. refl;
      masterless = v.masterless;
      mastered = v.mastered;
    }

overtaking-Arrived : Arrived overtaking (message_of (some (film "b"))) (update_of (some (film "b")))
overtaking-Arrived = record { rest = []; first = refl; typed = refl; carried = refl }

overtaking-IsRoomy : IsRoomy overtaking
unfolding start_manager new_room lookup
overtaking-IsRoomy k c h = let nobody : none ≡ some c = h in absurd cc

stale_update_wins_example : Returns (on_message_in whole_ops (at 5000000000) overtaking) (λ mg₁.
    ShownToAll
      (seen_at whole_ops (at 5000000000) 4 (film "b") zero_float 5000000000)
      overtaking.chamber
      mg₁.chamber
    × Returns
        (on_cooldown_over whole_ops
          (at 5000000001)
          (record mg₁ { update_cooldown_timer = expired }))
        (λ mg₂.
          ShownToAll
            (seen_at whole_ops (at 5000000001) 4 (film "a") zero_float 5000000001)
            mg₁.chamber
            mg₂.chamber))
unfolding start_manager new_room
stale_update_wins_example =
    stale_update_wins whole_ops (at 5000000000) (at 5000000001) overtaking
      (message_of (some (film "a"))) (message_of (some (film "b"))) (update_of (some (film "a")))
      (update_of (some (film "b"))) (film "a") (film "b") overtaking-Inv overtaking-IsRoomy refl
      refl refl refl overtaking-Arrived refl refl refl expired refl

-- A master that has sent an update.
abbrev updating : ClientConn
updating = record (greeted "m" client_state_master) {
  recv_queue = record { buffer = message_of (some (film "a")) ∷ []; capacity = 32; closed = false };
}
