-- ===== src/Playback/Updates.antt =====
-- What a master sends is what viewers see.
use vchamber.Prelude.{◌≡◌, inl, inr, false, Bool-cases, some, int_eq, if◌then◌else◌, Returns, arith}
use vchamber.Wire.{
  Float64, zero_float, two_float, Time, Duration, FloatOps, PlaybackState, PlaybackStateMessage,
  PlaybackStateUpdateMessage, state_broadcast, message_type_state_broadcast,
  playback_status_playing,
}
use vchamber.Playback.{Instants, since, update_state, get_current_state_message}

-- An update that is not playing, and whose position is not past the duration, comes back unchanged:
-- applying it completes, and every state message from then on carries exactly the master's state,
-- however much time goes by.
update_shown :
    (fl : FloatOps) (p : PlaybackStateUpdateMessage) (s : PlaybackStateMessage) (d : Duration)
    (now : Time) (st : PlaybackState) (at : Instants)
    → p.state ≡ some s
    → int_eq s.status playback_status_playing ≡ false
    → fl.gt s.position s.duration ≡ false
    → Returns (update_state fl p d now st) (λ st'.
      ((get_current_state_message fl at st').0 ≡ st')
      × ((get_current_state_message fl at st').1.type ≡ message_type_state_broadcast)
      × ((get_current_state_message fl at st').1.payload ≡ state_broadcast s))
unfolding update_state get_current_state_message
update_shown fl p s d now st at e still within = ground arith

-- A master's state as a viewer is to see it: if it is playing, then with the way that it has gone
-- since, first from the master to the room, half a round trip and the wait there, and then in the
-- room.
abbrev pub seen :
    FloatOps → PlaybackStateMessage → Float64 → Duration → Duration → PlaybackStateMessage
seen fl s rtt waited elapsed =
    if int_eq s.status playback_status_playing
    then record s {
      position =
          fl.add
            (fl.add s.position (
              fl.mul (fl.add (fl.max (fl.div rtt two_float) zero_float) (fl.seconds waited))
                s.speed))
            (fl.mul (fl.seconds elapsed) s.speed);
    }
    else s

-- What viewers see of an update is the master's state, with the way that it has gone since: applying
-- an update completes, and each state message that is made while this is not past the duration
-- carries it, and leaves the room's state as it is.
pub update_seen :
    (fl : FloatOps) (p : PlaybackStateUpdateMessage) (s : PlaybackStateMessage) (d : Duration)
    (now : Time) (st : PlaybackState) (at : Instants)
    → p.state ≡ some s
    → fl.gt (seen fl s p.rtt d (since at.checked now)).position s.duration ≡ false
    → Returns (update_state fl p d now st) (λ st'.
      ((get_current_state_message fl at st').0 ≡ st')
      × ((get_current_state_message fl at st').1.type ≡ message_type_state_broadcast)
      × ((get_current_state_message fl at st').1.payload
          ≡ state_broadcast (seen fl s p.rtt d (since at.sent now))))
unfolding update_state get_current_state_message
update_seen fl p s d now st at e within =
    elim (Bool-cases (int_eq s.status playback_status_playing)) [
      | inl on ↦ ground arith
      | inr off ↦ ground arith
    ]
