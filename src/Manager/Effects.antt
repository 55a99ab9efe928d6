-- ===== src/Manager/Effects.antt =====
-- What the rounds of a manager do to the connections of its room, if they complete.
use vchamber.Prelude.{
  ◌≡◌, refl, false, Option, none, some, if◌then◌else◌, ◌==◌, ◌&&◌, length, [], ltb, int_eq, recv,
  drain, Outcome, ok, Partly, bind-Partly, Partly-map, if-Partly, Partly_of_ok, panic, blocked,
  subst, arith,
}
use vchamber.Wire.{
  FloatOps, Message, PlaybackState, PlaybackStateUpdateMessage, message_type_state_update,
}
use vchamber.Playback.{update_state, since}
use vchamber.Conn.{is_master, again}
use vchamber.Room.{ClientRef, Chamber, broadcast_state, send_state, join_client, kill_client}
use vchamber.Room.Effects.{
  AllQuiet, Told, Removes, broadcast_state-Told, send_state-Told, kill_client-Removes,
}
use vchamber.Manager.{
  Manager, Readings, Event, cooldown_over, message_in, client_in, client_out, ticked, shutdown,
  update_cooldown, assert_update, apply_update, flush, buffer, take_update, handle_room_message,
  stop_shutdown, on_cooldown_over, on_message_in, on_client_in, on_client_out, on_tick, go_on,
  run_manager,
}

-- The clients are the same, and their goroutines have not run.
abbrev pub Minds : Chamber → Chamber → Type 0
Minds ch ch' = (ch'.room.clients ≡ ch.room.clients) × AllQuiet ch.conns ch'.conns

-- The cases of the select that no client takes part in.
abbrev pub IsInternal : Event → Type 0
IsInternal cooldown_over = Unit
IsInternal message_in = Unit
IsInternal ticked = Unit
IsInternal _ = ⊥

Minds-refl : (ch : Chamber) → Minds ch ch
Minds-refl ch = (refl, λ c. (refl, refl, refl, refl, refl))

module _ (fl : FloatOps) (at : Readings) where
  apply_update-Minds :
      (m : Message) (p : PlaybackStateUpdateMessage) (ch : Chamber)
      → Partly (apply_update fl at m p ch) (Minds ch)
  unfolding apply_update
  apply_update-Minds m p ch =
      bind-Partly (update_state fl p (since at.applied m.received_at) at.stamped ch.room.state) _
        (λ st. Unit) (Minds ch) (anything _)
        (λ st u.
          Partly-map
            (broadcast_state fl at.shown (record ch { room = record ch.room { state = st } })) _
            (Minds ch) (broadcast_state-Told fl at.shown _) (λ ch' (e, q). (rw e refl, q)))
    where
      anything : (o : Outcome PlaybackState) → Partly o (λ st. Unit)
      anything o = Partly_of_ok o (λ st. Unit) (λ st e. tt)

  flush-Minds : (o : Option Message) (ch : Chamber) → Partly (flush fl at o ch) (Minds ch)
  unfolding flush
  flush-Minds none ch = Minds-refl ch
  flush-Minds (some m) ch =
      bind-Partly (assert_update m.payload) _ (λ p. Unit) (Minds ch)
        (Partly_of_ok (assert_update m.payload) (λ p. Unit) (λ p e. tt))
        (λ p u. apply_update-Minds m p ch)

  pub on_cooldown_over-Minds :
      (mg : Manager) → Partly (on_cooldown_over fl at mg) (λ mg'. Minds mg.chamber mg'.chamber)
  unfolding on_cooldown_over
  on_cooldown_over-Minds mg =
      bind-Partly (drain mg.update_cooldown_timer) _ (λ t. Unit) _
        (Partly_of_ok (drain mg.update_cooldown_timer) (λ t. Unit) (λ t e. tt))
        (λ t u.
          bind-Partly (flush fl at mg.buffered_update mg.chamber) _ (Minds mg.chamber) _
            (flush-Minds mg.buffered_update mg.chamber) (λ ch h. h))

  take_update-Minds :
      (m : Message) (p : PlaybackStateUpdateMessage) (mg : Manager)
      → Partly (take_update fl at m p mg) (λ mg'. Minds mg.chamber mg'.chamber)
  unfolding take_update buffer
  take_update-Minds m p mg =
      if-Partly (ltb update_cooldown (since at.compared mg.chamber.room.state.last_updated)) _ _ _
        (λ e.
          bind-Partly (apply_update fl at m p mg.chamber) _ (Minds mg.chamber) _
            (apply_update-Minds m p mg.chamber) (λ ch h. h))
        (λ e. Minds-refl mg.chamber)

  handle_room_message-Minds :
      (o : Option Message) (mg : Manager)
      → Partly (handle_room_message fl at o mg) (λ mg'. Minds mg.chamber mg'.chamber)
  unfolding handle_room_message
  handle_room_message-Minds none mg = tt
  handle_room_message-Minds (some m) mg =
      if-Partly (int_eq m.type message_type_state_update) _ _ _
        (λ e.
          bind-Partly (assert_update m.payload) _ (λ p. Unit) _
            (Partly_of_ok (assert_update m.payload) (λ p. Unit) (λ p e. tt))
            (λ p u. take_update-Minds m p mg))
        (λ e. Minds-refl mg.chamber)

  pub on_message_in-Minds :
      (mg : Manager) → Partly (on_message_in fl at mg) (λ mg'. Minds mg.chamber mg'.chamber)
  unfolding on_message_in
  on_message_in-Minds mg =
      bind-Partly (recv mg.chamber.room.recv_queue) _ (λ r. Unit) _
        (Partly_of_ok (recv mg.chamber.room.recv_queue) (λ r. Unit) (λ r e. tt))
        (λ (m, q) u. handle_room_message-Minds m _)

  pub on_tick-Minds :
      (mg : Manager) → Partly (on_tick fl at mg) (λ mg'. Minds mg.chamber mg'.chamber)
  unfolding on_tick
  on_tick-Minds mg =
      bind-Partly (broadcast_state fl at.shown mg.chamber) _ (Told fl at.shown mg.chamber) _
        (broadcast_state-Told fl at.shown mg.chamber) (λ ch (e, q). (rw e refl, q))

  -- The state that is sent to a client that comes in.
  pub on_client_in-Told :
      (c : ClientRef) (mg : Manager)
      → Partly (on_client_in fl at (some c) mg) (λ mg'.
        Told fl at.shown (join_client (some c) mg.chamber) mg'.chamber
        × (mg'.buffered_update ≡ mg.buffered_update))
  unfolding on_client_in
  on_client_in-Told c mg =
      bind-Partly (send_state fl at.shown (mg.chamber.conns c).id (join_client (some c) mg.chamber))
        _ (Told fl at.shown (join_client (some c) mg.chamber)) _
        (send_state-Told fl at.shown (join_client (some c) mg.chamber) (mg.chamber.conns c).id)
        (λ ch h.
          bind-Partly
            (if is_master (mg.chamber.conns c).state && length ch.room.masters == 1
              then stop_shutdown mg.shutdown_timer
              else ok mg.shutdown_timer)
            _ (λ t. Unit) _ (Partly_of_ok _ (λ t. Unit) (λ t e. tt)) (λ t u. (h, refl)))

-- A manager that keeps no update does nothing when its cooldown is over, ...
pub on_cooldown_over_idle :
    (fl : FloatOps) (at : Readings) (mg : Manager)
    → mg.buffered_update ≡ none
    → Partly
        (on_cooldown_over fl at mg)
        (λ mg'. (mg'.chamber ≡ mg.chamber) × (mg'.buffered_update ≡ none))
unfolding on_cooldown_over flush
on_cooldown_over_idle fl at mg e = rw e (ground arith)

-- ... and it waits for a message.
pub on_message_in_blocked :
    (fl : FloatOps) (at : Readings) (mg : Manager)
    → mg.chamber.room.recv_queue.buffer ≡ []
    → mg.chamber.room.recv_queue.closed ≡ false
    → on_message_in fl at mg ≡ blocked
unfolding on_message_in recv
on_message_in_blocked fl at mg e o = rw e (rw o refl)

pub on_client_out-Removes :
    (at : Readings) (c : ClientRef) (mg : Manager)
    → Partly
        (on_client_out at (some c) mg)
        (λ mg'. Removes c mg.chamber mg'.chamber × (mg'.buffered_update ≡ mg.buffered_update))
unfolding on_client_out
on_client_out-Removes at c mg =
    bind-Partly (kill_client (some c) mg.chamber) _ (Removes c mg.chamber) _
      (kill_client-Removes c mg.chamber) (λ ch h. (h, refl))

pub go_on-Partly :
    (m : Outcome Manager) (P : Manager → Type 0) {mg : Manager}
    → Partly m P
    → go_on m ≡ ok (again mg)
    → P mg
go_on-Partly (ok a) P h e = subst P (ground arith) h
go_on-Partly blocked P h e = cc
go_on-Partly (panic x) P h e = cc

module _ (fl : FloatOps) (at : Readings) (mg : Manager) {mg' : Manager} where
  -- A round that no client takes part in leaves the clients alone, but for what is sent to them.
  pub internal-Minds :
      (e : Event)
      → IsInternal e
      → run_manager fl at e mg ≡ ok (again mg')
      → Minds mg.chamber mg'.chamber
  unfolding run_manager
  internal-Minds cooldown_over i r = go_on-Partly _ _ (on_cooldown_over-Minds fl at mg) r
  internal-Minds message_in i r = go_on-Partly _ _ (on_message_in-Minds fl at mg) r
  internal-Minds ticked i r = go_on-Partly _ _ (on_tick-Minds fl at mg) r
  internal-Minds (client_in c) i r = absurd i
  internal-Minds (client_out c) i r = absurd i
  internal-Minds shutdown i r = absurd i

  pub client_in-Told :
      (c : ClientRef)
      → run_manager fl at (client_in (some c)) mg ≡ ok (again mg')
      → Told fl at.shown (join_client (some c) mg.chamber) mg'.chamber
        × (mg'.buffered_update ≡ mg.buffered_update)
  unfolding run_manager
  client_in-Told c r = go_on-Partly _ _ (on_client_in-Told fl at c mg) r

  pub client_out-Removes :
      (c : ClientRef)
      → run_manager fl at (client_out (some c)) mg ≡ ok (again mg')
      → Removes c mg.chamber mg'.chamber × (mg'.buffered_update ≡ mg.buffered_update)
  unfolding run_manager
  client_out-Removes c r = go_on-Partly _ _ (on_client_out-Removes at c mg) r
