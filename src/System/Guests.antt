-- ===== src/System/Guests.antt =====
-- A room to whose master key nobody comes.
pub mod Steps
use vchamber.Prelude.{
  ℕ, ◌≡◌, ◌≢◌, refl, sym, ◌∙◌, ap, subst, ◌⊎◌, inl, inr, Bool, true, false, Bool-cases, Option,
  none, some, String, List, All, [], ◌∷◌, Chan, recv, drain, update, if◌then◌else◌, ◌==◌, Outcome,
  ok, blocked, panic, Partly, bind-Partly, Partly-map, Partly_of_ok, Partly-ok, Returns, arith,
  ◌>>=◌,
}
use vchamber.Wire.{
  Float64, zero_float, FloatOps, Time, Message, PlaybackState, playback_status_stopped, one_float,
}
use vchamber.Playback.{Instants, get_current_state_message}
use vchamber.Conn.{
  handle_ws_client_send, ClientConn, ClientState, client_state_master, client_state_guest,
  client_state_unauthorised, is_master, Turn, again, returned, handle_vchamber_client,
}
use vchamber.Conn.Authority.{state_of, Forwards, handle_vchamber_client-Forwards}
use vchamber.Conn.Effects.{
  Handled, SentFrom, handle_vchamber_client-Handled, handle_ws_client_send-SentFrom,
}
use vchamber.Codec.{Json}
use vchamber.Receive.{Read, frame, read_error, handle_ws_client_recv}
use vchamber.Receive.Effects.{ReceivedTo, Yields, handle_ws_client_recv-ReceivedTo}
use vchamber.Room.{ClientRef, Room, Chamber, new_room, join_client}
use vchamber.Room.Effects.{AllQuiet, Told, Removes}
use vchamber.Manager.{
  Manager, Readings, Event, cooldown_over, message_in, client_in, client_out, ticked, shutdown,
  on_cooldown_over, on_message_in, on_tick, run_manager, start_manager,
}
use vchamber.Manager.Effects.{
  IsInternal, on_cooldown_over_idle, on_message_in_blocked, go_on-Partly, client_in-Told,
  client_out-Removes, internal-Minds,
}
use vchamber.Room.Effects.{broadcast_state-Told}
use vchamber.Manager.Rounds.{new_manager}
use vchamber.Server.{Hub, RoomRef}
use vchamber.Handshake.{Handshake, admitted, handle_ws_client}
use vchamber.Handshake.Access.{Decides, let_in, greeted, handle_ws_client-Decides}
use vchamber.System.{
  Activity, absent, running, leaving, gone, Threads, worked, managed, activity, set_activity,
  all_running, after, Goroutine, the_reader, the_handler, the_sender, System, conn_of, Step,
  connects, joins, departs, manages, shutdown_expires, cooldown_expires, receives, handles, sends,
  Reach, here, next, new_system,
}

-- Only the master key makes a master.
module _ (hub : Hub) (roomid token cid : String) (upgraded : Option String) where
  abbrev NoMaster : Handshake → Type 0
  NoMaster (admitted r conn) = token ≢ (hub.store r).master_key → is_master conn.state ≡ false
  NoMaster _ = Unit

  decided-NoMaster : (h : Handshake) → Decides hub roomid token cid upgraded h → NoMaster h
  decided-NoMaster _ (let_in r client_state_master n h e) = λ t. absurd (t h.2)
  decided-NoMaster _ (let_in r client_state_guest n h e) = λ t. refl
  decided-NoMaster _ (let_in r client_state_unauthorised n h e) = λ t. refl
  decided-NoMaster _ _ = tt

  pub guest_admitted :
      {r : RoomRef} {conn : ClientConn}
      → handle_ws_client hub roomid token cid upgraded ≡ ok (admitted r conn)
      → token ≢ (hub.store r).master_key
      → is_master conn.state ≡ false
  guest_admitted e = decided-NoMaster _ (
      subst (λ o. Returns o (Decides hub roomid token cid upgraded)) e
        (handle_ws_client-Decides hub roomid token cid upgraded))

-- The playback state of a new room.
abbrev pub stopped_at : Time → PlaybackState
stopped_at now = record {
  source = "";
  status = playback_status_stopped;
  position = zero_float;
  speed = one_float;
  duration = zero_float;
  last_updated = now;
}

-- Nobody has come near the playback state of the room.
abbrev pub IsCalm : Time → String → Manager → Type 0
IsCalm now k mg =
    (mg.chamber.room.master_key ≡ k)
    × (mg.chamber.room.state ≡ stopped_at now)
    × (mg.chamber.room.recv_queue.buffer ≡ [])
    × (mg.chamber.room.recv_queue.closed ≡ false)
    × (mg.buffered_update ≡ none)

module _ (fl : FloatOps) (calm : fl.gt zero_float zero_float ≡ false) (now : Time) where
  stays_stopped :
      (at : Instants) → (get_current_state_message fl at (stopped_at now)).0 ≡ stopped_at now
  unfolding get_current_state_message
  stays_stopped at = ground arith

  Told-room :
      (at : Instants) (ch ch' : Chamber)
      → ch.room.state ≡ stopped_at now
      → Told fl at ch ch'
      → ch'.room ≡ ch.room
  Told-room at ch ch' e (t, q) =
      t
      ∙ ap (λ st. record ch.room { state = st })
          (ap (λ st. (get_current_state_message fl at st).0) e ∙ stays_stopped at ∙ sym e)

  module _ (k : String) (at : Readings) (mg : Manager) (h : IsCalm now k mg) where
    on_tick-IsCalm : Partly (on_tick fl at mg) (IsCalm now k)
    unfolding on_tick
    on_tick-IsCalm =
        bind-Partly _ _ (Told fl at.shown mg.chamber) (IsCalm now k)
          (broadcast_state-Told fl at.shown mg.chamber)
          (λ ch t. rw (Told-room at.shown mg.chamber ch h.1 t) h)

    on_cooldown_over-IsCalm : Partly (on_cooldown_over fl at mg) (IsCalm now k)
    on_cooldown_over-IsCalm =
        Partly-map (on_cooldown_over fl at mg) _ (IsCalm now k) (on_cooldown_over_idle fl at mg h.4)
          (λ mg' (e, n). rw e (h.0, h.1, h.2, h.3, n))

    pub internal-IsCalm :
        (e : Event) {mg' : Manager}
        → IsInternal e
        → run_manager fl at e mg ≡ ok (again mg')
        → IsCalm now k mg'
    unfolding run_manager
    internal-IsCalm cooldown_over i r = go_on-Partly _ _ on_cooldown_over-IsCalm r
    internal-IsCalm message_in i r =
        go_on-Partly (on_message_in fl at mg) (IsCalm now k)
          (rw (on_message_in_blocked fl at mg h.2 h.3) tt) r
    internal-IsCalm ticked i r = go_on-Partly _ _ on_tick-IsCalm r
    internal-IsCalm (client_in c) i r = absurd i
    internal-IsCalm (client_out c) i r = absurd i
    internal-IsCalm shutdown i r = absurd i

    pub client_in-IsCalm :
        (c : ClientRef) {mg' : Manager}
        → run_manager fl at (client_in (some c)) mg ≡ ok (again mg')
        → IsCalm now k mg'
    unfolding join_client
    client_in-IsCalm c {mg'} r =
        let (t, b) = client_in-Told fl at mg c r in
        rw (Told-room at.shown (join_client (some c) mg.chamber) mg'.chamber h.1 t)
          (h.0, h.1, h.2, h.3, b ∙ h.4)

    pub client_out-IsCalm :
        (c : ClientRef) {mg' : Manager}
        → run_manager fl at (client_out (some c)) mg ≡ ok (again mg')
        → IsCalm now k mg'
    client_out-IsCalm c r =
        let (t, b) = client_out-Removes fl at mg c r in
        elim t [
          | inl e ↦ rw e (h.0, h.1, h.2, h.3, b ∙ h.4)
          | inr (l, e, f) ↦ rw e (h.0, h.1, h.2, h.3, b ∙ h.4)
        ]
