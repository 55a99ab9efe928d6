-- ===== src/Playback.antt =====
-- The playback clock of a room: checkPosition, UpdateState and GetCurrentStateMessage of
-- server/server/wsserver.go. Each reading of time.Now or time.Since is an argument. The monotonic
-- clock does not run back, so the truncated difference is exact.
pub mod Laws
pub mod Bounds
pub mod Updates
use vchamber.Prelude.{
  ℕ, ℤ, ◌-◌, ◌≡◌, refl, Bool, Option, none, some, if◌then◌else◌, int_eq, Outcome, ok, panic,
  nil_dereference, String,
}
use vchamber.Wire.{
  Float64, zero_float, two_float, Time, Duration, FloatOps, PlaybackStatus, playback_status_stopped,
  playback_status_playing, PlaybackState, message_type_state_broadcast, PlaybackStateMessage,
  PlaybackStateUpdateMessage, Payload, state_broadcast, Message,
}

-- The clock readings of one GetCurrentStateMessage, in the order in which they are made.
pub record Instants : Type 0 where
  pub checked : Time
  pub ended : Time
  pub sent : Time

abbrev pub since : Time → Time → Duration
since now earlier = now - earlier

-- newPos, as it stands at a reading of the clock
unfoldable pub position_at : FloatOps → Time → PlaybackState → Float64
position_at fl now st =
    if int_eq st.status playback_status_playing
    then fl.add st.position (fl.mul (fl.seconds (since now st.last_updated)) st.speed)
    else st.position

unfoldable pub check_position : FloatOps → Time → Time → PlaybackState → PlaybackState
unfolding position_at
check_position fl checked ended st =
    if fl.gt (position_at fl checked st) st.duration
    then record st {
      position = st.duration;
      status = playback_status_stopped;
      last_updated = ended;
    }
    else st

update_from :
    FloatOps → PlaybackStateMessage → Float64 → Duration → Time → PlaybackState → PlaybackState
update_from fl p rtt d now st = record {
  source = p.source;
  status = p.status;
  speed = p.speed;
  duration = p.duration;
  position =
      (if int_eq p.status playback_status_playing
        then fl.add p.position
            (fl.mul (fl.add (fl.max (fl.div rtt two_float) zero_float) (fl.seconds d)) p.speed)
        else p.position);
  last_updated = now;
}

-- Reading p.State.Source through a nil State panics.
unfoldable pub update_state :
    FloatOps → PlaybackStateUpdateMessage → Duration → Time → PlaybackState → Outcome PlaybackState
unfolding update_from
update_state fl p d now st = elim p.state [
  | none ↦ panic nil_dereference
  | some s ↦ ok (update_from fl s p.rtt d now st)
]

state_message : FloatOps → Time → PlaybackState → Message
unfolding position_at
state_message fl sent st = record {
  sender = "";
  received_at = 0;
  type = message_type_state_broadcast;
  payload = state_broadcast (record {
    source = st.source;
    status = st.status;
    position = position_at fl sent st;
    speed = st.speed;
    duration = st.duration;
  });
}

unfoldable pub get_current_state_message :
    FloatOps → Instants → PlaybackState → PlaybackState × Message
unfolding check_position state_message
get_current_state_message fl at st =
    let st' = check_position fl at.checked at.ended st in (st', state_message fl at.sent st')
