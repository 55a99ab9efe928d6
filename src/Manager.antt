-- ===== src/Manager.antt =====
-- RunManager of server/server/wsserver.go: the event loop of a room. A round takes the case that its
-- select found ready, and the readings of the clock that it makes.
pub mod Steps
pub mod Clients
pub mod Shutdown
pub mod Rounds
pub mod Updates
pub mod Late
pub mod Effects
pub mod Ending
pub mod Showing
pub mod Stale
pub mod Invariant
use vchamber.Prelude.{
  ℕ, ◌+◌, ◌-◌, ◌*◌, ◌/◌, ◌≡◌, Bool, true, false, not, ◌&&◌, List, [], ◌∷◌, Option, none, some,
  String, if◌then◌else◌, ◌==◌, ltb, int_eq, length, GoMap, Chan, recv, Outcome, ok, blocked, panic,
  nil_dereference, failed_assertion, ◌>>=◌, Timer, is_armed, new_timer, stop, reset, drain,
}
use vchamber.Wire.{
  FloatOps, Time, Duration, second, Message, Payload, state_update, PlaybackStateUpdateMessage,
  message_type_state_update,
}
use vchamber.Playback.{Instants, since, update_state}
use vchamber.Conn.{ClientConn, is_master, Turn, again, returned}
use vchamber.Room.{ClientRef, Room, Chamber, broadcast_state, send_state, join_client, kill_client}

abbrev pub broadcast_period : Duration
broadcast_period = 5 * second

abbrev pub default_masterless_timeout : Duration
default_masterless_timeout = 300 * second

abbrev pub update_cooldown : Duration
update_cooldown = 1 * second

pub record Manager : Type 0 where
  pub chamber : Chamber
  pub shutdown_timer : Timer
  pub buffered_update : Option Message
  pub update_cooldown_timer : Timer

-- The cases of the select. A nil client comes from a closed channel.
pub data Event : Type 0 where
  cooldown_over : Event
  message_in : Event
  client_in : Option ClientRef → Event
  client_out : Option ClientRef → Event
  ticked : Event
  shutdown : Event

-- The readings of the clock in a round, in the order in which they are made.
pub record Readings : Type 0 where
  pub compared : Time
  pub applied : Time
  pub stamped : Time
  pub shown : Instants
  pub rearmed : Time

unfoldable pub start_manager : Time → Chamber → Manager
start_manager now ch = record {
  chamber = ch;
  shutdown_timer = new_timer now default_masterless_timeout;
  buffered_update = none;
  update_cooldown_timer = stop (new_timer now update_cooldown);
}

unfoldable pub assert_update : Payload → Outcome PlaybackStateUpdateMessage
assert_update (state_update p) = ok p
assert_update _ = panic failed_assertion

-- r.UpdateState(p, time.Since(m.ReceivedAt)); r.BroadcastState()
unfoldable pub apply_update :
    FloatOps → Readings → Message → PlaybackStateUpdateMessage → Chamber → Outcome Chamber
apply_update fl at m p ch = do
  st ← update_state fl p (since at.applied m.received_at) at.stamped ch.room.state
  broadcast_state fl at.shown (record ch { room = record ch.room { state = st } })

flush : FloatOps → Readings → Option Message → Chamber → Outcome Chamber
flush fl at none ch = ok ch
flush fl at (some m) ch = do p ← assert_update m.payload; apply_update fl at m p ch

-- case <-updateCooldownTimer.C
unfoldable pub on_cooldown_over : FloatOps → Readings → Manager → Outcome Manager
unfolding flush
on_cooldown_over fl at mg = do
  timer ← drain mg.update_cooldown_timer
  ch ← flush fl at mg.buffered_update mg.chamber
  ok (record mg { chamber = ch; buffered_update = none; update_cooldown_timer = timer })

-- The timer runs from the first update that is buffered; the last one is kept.
buffer : Readings → Message → Manager → Manager
buffer at m mg = record mg {
  update_cooldown_timer = elim mg.buffered_update [
    | none ↦ reset at.rearmed (9 * update_cooldown / 10) mg.update_cooldown_timer
    | some old ↦ mg.update_cooldown_timer
  ];
  buffered_update = some m;
}

pub take_update :
    FloatOps → Readings → Message → PlaybackStateUpdateMessage → Manager → Outcome Manager
unfolding buffer
take_update fl at m p mg =
    if ltb update_cooldown (since at.compared mg.chamber.room.state.last_updated)
    then (do ch ← apply_update fl at m p mg.chamber; ok (record mg { chamber = ch }))
    else ok (buffer at m mg)

handle_room_message : FloatOps → Readings → Option Message → Manager → Outcome Manager
unfolding take_update
handle_room_message fl at none mg = panic nil_dereference
handle_room_message fl at (some m) mg =
    if int_eq m.type message_type_state_update
    then (do p ← assert_update m.payload; take_update fl at m p mg)
    else ok mg

-- case m := <-r.recvQueue
unfoldable pub on_message_in : FloatOps → Readings → Manager → Outcome Manager
unfolding handle_room_message
on_message_in fl at mg = do
  (m, q) ← recv mg.chamber.room.recv_queue
  handle_room_message fl at m (record mg {
    chamber = record mg.chamber { room = record mg.chamber.room { recv_queue = q } };
  })

-- if !shutdownTimer.Stop() { <-shutdownTimer.C }
stop_shutdown : Timer → Outcome Timer
stop_shutdown t = if is_armed t then ok (stop t) else drain (stop t)

-- case c := <-r.enqClient
unfoldable pub on_client_in : FloatOps → Readings → Option ClientRef → Manager → Outcome Manager
unfolding stop_shutdown
on_client_in fl at none mg = panic nil_dereference
on_client_in fl at (some c) mg = do
  ch ← send_state fl at.shown (mg.chamber.conns c).id (join_client (some c) mg.chamber)
  timer ←
      if is_master (mg.chamber.conns c).state && length ch.room.masters == 1
      then stop_shutdown mg.shutdown_timer
      else ok mg.shutdown_timer
  ok (record mg { chamber = ch; shutdown_timer = timer })

-- case c := <-r.deqClient
unfoldable pub on_client_out : Readings → Option ClientRef → Manager → Outcome Manager
on_client_out at none mg = panic nil_dereference
on_client_out at (some c) mg = do
  ch ← kill_client (some c) mg.chamber
  ok (record mg {
    chamber = ch;
    shutdown_timer =
        (if is_master (mg.chamber.conns c).state && length ch.room.masters == 0
          then reset at.rearmed default_masterless_timeout mg.shutdown_timer
          else mg.shutdown_timer);
  })

-- case <-updateTicker.C
unfoldable pub on_tick : FloatOps → Readings → Manager → Outcome Manager
on_tick fl at mg = do ch ← broadcast_state fl at.shown mg.chamber; ok (record mg { chamber = ch })

-- The loop over the clients in the deferred function. Deleting during a range is safe in Go.
unfoldable pub kill_all : GoMap ClientRef → Chamber → Outcome Chamber
kill_all [] ch = ok ch
kill_all ((k, c) ∷ rest) ch = do ch' ← kill_client (some c) ch; kill_all rest ch'

-- case <-shutdownTimer.C: the deferred function stops the timers and removes the clients. What is
-- left for the goroutine is end_manager's.
unfoldable pub on_shutdown : Manager → Outcome Manager
on_shutdown mg = do
  timer ← drain mg.shutdown_timer
  ch ← kill_all mg.chamber.room.clients mg.chamber
  ok (record mg {
    chamber = ch;
    shutdown_timer = stop timer;
    update_cooldown_timer = stop mg.update_cooldown_timer;
  })

-- The whole deferred function: it ends with r.server.deqRoom <- r, on a channel that has no buffer and
-- is never closed; `taken` says whether the server receives it.
pub end_manager : Bool → Manager → Outcome Manager
end_manager taken mg = do mg' ← on_shutdown mg; if taken then ok mg' else blocked

abbrev go_on : Outcome Manager → Outcome (Turn Manager)
go_on m = do mg ← m; ok (again mg)

-- One round of RunManager.
unfoldable pub run_manager : FloatOps → Readings → Event → Manager → Outcome (Turn Manager)
run_manager fl at cooldown_over mg = go_on (on_cooldown_over fl at mg)
run_manager fl at message_in mg = go_on (on_message_in fl at mg)
run_manager fl at (client_in c) mg = go_on (on_client_in fl at c mg)
run_manager fl at (client_out c) mg = go_on (on_client_out at c mg)
run_manager fl at ticked mg = go_on (on_tick fl at mg)
run_manager fl at shutdown mg = do mg' ← on_shutdown mg; ok (returned mg')
