-- ===== src/Playback/Bounds.antt =====
-- What viewers see of the playback clock.
use vchamber.Prelude.{◌≡◌, true, false, ◌<◌, ◌≤◌, arith}
use vchamber.Wire.{Float64, zero_float, Time, FloatOps, PlaybackState, Payload, state_broadcast}
use vchamber.Playback.{Instants, since, position_at, get_current_state_message}
use native.Mathlib.Decide.{dec_lt}
use vchamber.Playback.Laws.{FloatLaws}

-- The position that a state message shows.
abbrev pub position_of : Payload → Float64
position_of (state_broadcast p) = p.position
position_of _ = zero_float

abbrev pub shown : FloatOps → Instants → PlaybackState → Float64
shown fl at st = position_of (get_current_state_message fl at st).1.payload

module _ (fl : FloatOps) (laws : FloatLaws fl) where
  -- Time only moves the position forward.
  position_at_mono :
      (st : PlaybackState) (t u : Time)
      → fl.gt zero_float st.speed ≡ false
      → t ≤ u
      → fl.gt (position_at fl t st) (position_at fl u st) ≡ false
  unfolding position_at
  position_at_mono st t u pace h = ground (
    arith,
    laws.gt_irrefl st.position,
    laws.gt-add st.position (fl.mul (fl.seconds (since t st.last_updated)) st.speed)
        (fl.mul (fl.seconds (since u st.last_updated)) st.speed),
    laws.gt-mul st.speed (fl.seconds (since t st.last_updated))
        (fl.seconds (since u st.last_updated)),
    laws.gt-seconds (since t st.last_updated) (since u st.last_updated),
  )

  -- Where the clock does not run back, and comparisons of float64 are strict, the position in a
  -- state message passes the duration only if time goes by between the clock reading of its check
  -- and that of its position.
  pub shown_overshoot :
      (at : Instants) (st : PlaybackState)
      → at.checked ≤ at.sent
      → fl.gt (shown fl at st) st.duration ≡ true
      → at.checked < at.sent
  unfolding get_current_state_message
  shown_overshoot at st order over = elim (dec_lt at.checked at.sent) [
    | yes later ↦ later
    | no same ↦ absurd (at_once (ground arith))
  ]
    where
      at_once : at.sent ≡ at.checked → ⊥
      at_once e = ground (arith, laws.gt_irrefl st.duration)

  -- Where float64 arithmetic is monotone, no viewer is sent back between two updates: of two state
  -- messages of one room the later one shows no smaller position, if the speed is not negative and
  -- the first was checked and sent at one reading of the clock.
  pub shown_mono :
      (at later : Instants) (st : PlaybackState)
      → fl.gt zero_float st.speed ≡ false
      → at.checked ≡ at.sent
      → at.sent ≤ later.sent
      → fl.gt (shown fl at st) (shown fl later (get_current_state_message fl at st).0) ≡ false
  unfolding get_current_state_message
  shown_mono at later st pace once h =
      ground (arith, laws.gt_irrefl st.duration, position_at_mono st at.sent later.sent pace h)
