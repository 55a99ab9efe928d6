-- ===== src/Manager/Clients.antt =====
-- Clients that come and go: the shutdown timer runs exactly while the room has no master.
use vchamber.Prelude.{
  suc, ◌≡◌, ◌≢◌, ◌<◌, refl, ◌⊎◌, true, false, some, String, List, [], ◌∷◌, length,
  length-insert_new, if◌then◌else◌, ◌&&◌, ◌==◌, is_armed, reset, Timer, ok, Safely, bind-Safely,
  Safely-map, Safely_of_Returns, Returns, lookup, arith, bind-Returns, Returns-map, Safely-ok,
  update, str_eq_self, ◌++◌, ◌>>=◌, ◌∙◌,
}
use vchamber.Wire.{FloatOps}
use vchamber.Playback.{get_current_state_message}
use vchamber.Conn.{is_master}
use vchamber.Room.{ClientRef, Chamber, send_state, join_client, kill_client}
use vchamber.Room.Invariant as RoomInvariant
use vchamber.Room.Invariant.{IsFresh, Keeps, same-Inv, join-Inv, no_master, joined_clients}
use vchamber.Room.Delivery.{queued}
use vchamber.Room.Broadcast.{send_state-Keeps, send_state_delivers}
use vchamber.Room.Kill.{Leaves, kill_some-Leaves}
use vchamber.Manager.{
  default_masterless_timeout, Manager, Readings, stop_shutdown, on_client_in, on_client_out,
}
use vchamber.Manager.Invariant.{Inv}

-- A manager with another chamber and shutdown timer.
abbrev pub with_timer : Manager → Chamber → Timer → Manager
with_timer mg ch t = record mg { chamber = ch; shutdown_timer = t }

-- The shutdown timer fits the masters.
abbrev pub Fits : Timer → Chamber → Type 0
Fits t ch =
    (ch.room.masters ≡ [] → (is_armed t ≡ true) ⊎ (t.fired ≡ true))
    × (ch.room.masters ≢ [] → is_armed t ≡ false)

pub with_timer-Inv :
    (mg : Manager) (ch : Chamber) (t : Timer)
    → Inv mg
    → RoomInvariant.Inv ch
    → ch.room.recv_queue ≡ mg.chamber.room.recv_queue
    → Fits t ch
    → Inv (with_timer mg ch t)
with_timer-Inv mg ch t v room q fits = record {
  room = room;
  queue_open = rw q v.queue_open;
  queue_sound = rw q v.queue_sound;
  buffered_sound = v.buffered_sound;
  cooldown_off = v.cooldown_off;
  cooldown_on = v.cooldown_on;
  masterless = fits.0;
  mastered = fits.1;
}

module _ (c : ClientRef) (mg : Manager) (fresh : IsFresh c mg.chamber) (v : Inv mg) where
  -- The masters after a client has joined.
  join_masters :
      ((is_master (mg.chamber.conns c).state ≡ false)
        × ((join_client (some c) mg.chamber).room.masters ≡ mg.chamber.room.masters))
      ⊎ ((is_master (mg.chamber.conns c).state ≡ true)
          × (length (join_client (some c) mg.chamber).room.masters
              ≡ suc (length mg.chamber.room.masters)))
  unfolding join_client
  join_masters = ground (
    arith,
    length-insert_new (mg.chamber.conns c).id c mg.chamber.room.masters
        (no_master c mg.chamber fresh v.room),
  )

  -- Joining may stop the shutdown timer, and finds it armed or out, so it does not wait.
  timer-Fits :
      (ms : List (String × ClientRef)) (ch : Chamber)
      → mg.chamber.room.masters ≡ ms
      → ch.room.masters ≡ (join_client (some c) mg.chamber).room.masters
      → Returns
          (if is_master (mg.chamber.conns c).state && length ch.room.masters == 1
            then stop_shutdown mg.shutdown_timer
            else ok mg.shutdown_timer)
          (λ t. Fits t ch)
  unfolding stop_shutdown
  timer-Fits [] ch e j = ground (arith, v.masterless e, join_masters)
  timer-Fits (x ∷ xs) ch e j = ground (arith, v.mastered, join_masters)

  join_queue : (join_client (some c) mg.chamber).room.recv_queue ≡ mg.chamber.room.recv_queue
  unfolding join_client
  join_queue = refl

  module _ (fl : FloatOps) (at : Readings) where
    -- The end of the round, after the state was sent.
    joined-Inv :
        (ch : Chamber)
        → Keeps (join_client (some c) mg.chamber) ch
        → Returns
            (do
              timer ←
                  if is_master (mg.chamber.conns c).state && length ch.room.masters == 1
                  then stop_shutdown mg.shutdown_timer
                  else ok mg.shutdown_timer
              ok (with_timer mg ch timer))
            (λ mg'. Inv mg' × (mg'.chamber ≡ ch))
    joined-Inv ch (room, cs, ms, q) =
        bind-Returns
          (if is_master (mg.chamber.conns c).state && length ch.room.masters == 1
            then stop_shutdown mg.shutdown_timer
            else ok mg.shutdown_timer)
          _ (λ t. Fits t ch) (λ mg'. Inv mg' × (mg'.chamber ≡ ch))
          (timer-Fits mg.chamber.room.masters ch refl ms)
          (λ t f. (with_timer-Inv mg ch t v room (q ∙ join_queue) f, refl))

    pub on_client_in-Inv : Safely (on_client_in fl at (some c) mg) Inv
    unfolding on_client_in
    on_client_in-Inv =
        bind-Safely
          (send_state fl at.shown (mg.chamber.conns c).id (join_client (some c) mg.chamber)) _
          (Keeps (join_client (some c) mg.chamber)) Inv
          (send_state-Keeps fl at.shown (join_client (some c) mg.chamber)
            (join-Inv c mg.chamber fresh v.room) (mg.chamber.conns c).id)
          (λ ch k.
            Safely-map _ (λ mg'. Inv mg' × (mg'.chamber ≡ ch)) Inv
              (Safely_of_Returns _ (λ mg'. Inv mg' × (mg'.chamber ≡ ch)) (joined-Inv ch k))
              (λ mg' w. w.0))

    joined_lookup :
        lookup (mg.chamber.conns c).id (join_client (some c) mg.chamber).room.clients ≡ some c
    joined_lookup =
        joined_clients c mg.chamber fresh v.room (mg.chamber.conns c).id
        ∙ rw (str_eq_self (mg.chamber.conns c).id) refl

    -- The room once the new client is in and has the state in its queue.
    abbrev let_in : Chamber
    let_in =
        let (st, m) = get_current_state_message fl at.shown mg.chamber.room.state in
        record {
          room = record (join_client (some c) mg.chamber).room { state = st };
          conns = update mg.chamber.conns c (queued m (mg.chamber.conns c));
        }

    let_in-sent :
        length (mg.chamber.conns c).send_queue.buffer < (mg.chamber.conns c).send_queue.capacity
        → send_state fl at.shown (mg.chamber.conns c).id (join_client (some c) mg.chamber)
          ≡ ok let_in
    unfolding join_client
    let_in-sent space =
        send_state_delivers fl at.shown (join_client (some c) mg.chamber)
          (join-Inv c mg.chamber fresh v.room) (mg.chamber.conns c).id c joined_lookup space

    -- A new client with space in its queue is let in at once by a well-formed manager: the round
    -- neither waits nor panics, the manager stays well formed, the client is then registered under
    -- its ID, and the current state is the last message in its queue.
    pub on_client_in_completes :
        length (mg.chamber.conns c).send_queue.buffer < (mg.chamber.conns c).send_queue.capacity
        → Returns (on_client_in fl at (some c) mg) (λ mg'.
          Inv mg'
          × (lookup (mg.chamber.conns c).id mg'.chamber.room.clients ≡ some c)
          × ((mg'.chamber.conns c).send_queue.buffer
              ≡ (mg.chamber.conns c).send_queue.buffer
                ++ (get_current_state_message fl at.shown mg.chamber.room.state).1 ∷ []))
    unfolding on_client_in
    on_client_in_completes space =
        let kept =
          Safely-ok _ (Keeps (join_client (some c) mg.chamber))
            (send_state-Keeps fl at.shown (join_client (some c) mg.chamber)
              (join-Inv c mg.chamber fresh v.room) (mg.chamber.conns c).id)
            (let_in-sent space) in
        rw (let_in-sent space) (
          Returns-map _ (λ mg'. Inv mg' × (mg'.chamber ≡ let_in)) _ (joined-Inv let_in kept)
            (λ mg' (inv, e). (inv, rw e joined_lookup, rw e (ground arith))))

    -- A master that is let in stops the armed timer, and leaves its channel as it is.
    pub on_client_in-fired :
        length (mg.chamber.conns c).send_queue.buffer < (mg.chamber.conns c).send_queue.capacity
        → is_armed mg.shutdown_timer ≡ true
        → is_master (mg.chamber.conns c).state ≡ true
        → Returns (on_client_in fl at (some c) mg) (λ mg'.
          (mg'.shutdown_timer.fired ≡ mg.shutdown_timer.fired)
          × (is_master (mg'.chamber.conns c).state ≡ true)
          × ((mg'.chamber.conns c).id ≡ (mg.chamber.conns c).id))
    unfolding on_client_in stop_shutdown
    on_client_in-fired space armed master = rw (let_in-sent space) (ground arith)

-- A client that goes, or is gone already: the round never waits nor panics.
pub on_client_out-Inv :
    (at : Readings) (c : ClientRef) (mg : Manager)
    → Inv mg
    → Returns (on_client_out at (some c) mg) Inv
unfolding on_client_out
on_client_out-Inv at c mg v =
    bind-Returns (kill_client (some c) mg.chamber) _ (Leaves c mg.chamber v.room) Inv
      (kill_some-Leaves c mg.chamber v.room)
      (λ ch (room, q, ms, none_left). with_timer-Inv mg ch _ v room q (out-Fits ch ms none_left))
  where
    out-Fits :
        (ch : Chamber)
        → (is_master (mg.chamber.conns c).state ≡ true)
          ⊎ (ch.room.masters ≡ mg.chamber.room.masters)
        → (mg.chamber.room.masters ≡ [] → ch.room.masters ≡ [])
        → Fits
            (if is_master (mg.chamber.conns c).state && length ch.room.masters == 0
              then reset at.rearmed default_masterless_timeout mg.shutdown_timer
              else mg.shutdown_timer)
            ch
    out-Fits ch ms none_left = ground (arith, v.masterless, v.mastered)
