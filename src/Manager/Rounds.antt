-- ===== src/Manager/Rounds.antt =====
-- A round of RunManager, and all that can happen between rounds.
use vchamber.Prelude.{
  ◌≡◌, refl, inl, none, some, [], ◌∷◌, ◌++◌, All, All-snoc, String, expire, Chan, send, Outcome, ok,
  Safely, bind-Safely, Safely_of_Returns, Safely-ok, arith, lookup, subst,
}
use vchamber.Wire.{FloatOps, Time, Message}
use vchamber.Conn.{ClientConn, again}
use vchamber.Room.{ClientRef, new_room}
use vchamber.Room.Invariant.{Untouched, untouched-Inv}
use vchamber.Manager.{
  Manager, Readings, Event, cooldown_over, message_in, client_in, client_out, ticked, shutdown,
  go_on, on_shutdown, run_manager, start_manager,
}
use vchamber.Manager.Invariant.{Inv, IsSound, IsAdmissible, IsEmpty, Kept}
use vchamber.Manager.Steps.{on_cooldown_over-Inv, on_message_in-Inv, on_tick-Inv}
use vchamber.Manager.Clients.{on_client_in-Inv, on_client_out-Inv}
use vchamber.Manager.Shutdown.{on_shutdown-IsEmpty}

go_on-Kept : (m : Outcome Manager) → Safely m Inv → Safely (go_on m) Kept
go_on-Kept m h = bind-Safely m _ Inv Kept h (λ mg v. v)

-- No round of a well-formed manager panics, in whatever case the select takes, if a client that
-- comes in is new and no channel is closed: afterwards the manager is well formed again, or, after
-- a shutdown, has left an empty room.
pub run_manager-Kept :
    (fl : FloatOps) (at : Readings) (e : Event) (mg : Manager)
    → IsAdmissible e mg
    → Inv mg
    → Safely (run_manager fl at e mg) Kept
unfolding run_manager
run_manager-Kept fl at cooldown_over mg a v = go_on-Kept _ (on_cooldown_over-Inv fl at mg v)
run_manager-Kept fl at message_in mg a v = go_on-Kept _ (on_message_in-Inv fl at mg v)
run_manager-Kept fl at (client_in none) mg a v = absurd a
run_manager-Kept fl at (client_in (some c)) mg a v = go_on-Kept _ (on_client_in-Inv c mg a v fl at)
run_manager-Kept fl at (client_out none) mg a v = absurd a
run_manager-Kept fl at (client_out (some c)) mg a v =
    go_on-Kept _ (Safely_of_Returns _ Inv (on_client_out-Inv at c mg v))
run_manager-Kept fl at ticked mg a v = go_on-Kept _ (on_tick-Inv fl at mg v)
run_manager-Kept fl at shutdown mg a v =
    bind-Safely (on_shutdown mg) _ (λ mg'. IsEmpty mg'.chamber) Kept (on_shutdown-IsEmpty mg v)
      (λ mg' h. h)

-- The manager with another content of the room's queue.
abbrev pub with_queue : Manager → Chan Message → Manager
with_queue mg q = record mg {
  chamber = record mg.chamber { room = record mg.chamber.room { recv_queue = q } };
}

abbrev pub with_conns : Manager → (ClientRef → ClientConn) → Manager
with_conns mg conns = record mg { chamber = record mg.chamber { conns = conns } }

module _ (fl : FloatOps) where
  -- A round of the manager, a timer that expires, a client's goroutine that hands over a message, or
  -- any other work on connections: of the clients in the room that changes the queues only.
  pub data Step (mg : Manager) : Manager → Type 0 where
    round :
        (at : Readings) (e : Event) {mg' : Manager}
        → IsAdmissible e mg
        → run_manager fl at e mg ≡ ok (again mg')
        → Step mg mg'
    shutdown_expires :
        (now : Time) → Step mg (record mg { shutdown_timer = expire now mg.shutdown_timer })
    cooldown_expires :
        (now : Time)
        → Step mg (record mg { update_cooldown_timer = expire now mg.update_cooldown_timer })
    message_arrives :
        (m : Message) {q : Chan Message}
        → IsSound m
        → send m mg.chamber.room.recv_queue ≡ ok q
        → Step mg (with_queue mg q)
    clients_work :
        (conns : ClientRef → ClientConn)
        → Untouched mg.chamber (record mg.chamber { conns = conns })
        → Step mg (with_conns mg conns)

  pub data Reach (mg : Manager) : Manager → Type 0 where
    here : Reach mg mg
    next : {mg' mg'' : Manager} → Reach mg mg' → Step mg' mg'' → Reach mg mg''

  shutdown_expires-Inv :
      (now : Time) (mg : Manager)
      → Inv mg
      → Inv (record mg { shutdown_timer = expire now mg.shutdown_timer })
  unfolding expire
  shutdown_expires-Inv now mg v = record {
    room = v.room;
    queue_open = v.queue_open;
    queue_sound = v.queue_sound;
    buffered_sound = v.buffered_sound;
    cooldown_off = v.cooldown_off;
    cooldown_on = v.cooldown_on;
    masterless = λ e. ground (arith, v.masterless e);
    mastered = λ n. ground (arith, v.mastered n);
  }

  cooldown_expires-Inv :
      (now : Time) (mg : Manager)
      → Inv mg
      → Inv (record mg { update_cooldown_timer = expire now mg.update_cooldown_timer })
  unfolding expire
  cooldown_expires-Inv now mg v = record {
    room = v.room;
    queue_open = v.queue_open;
    queue_sound = v.queue_sound;
    buffered_sound = v.buffered_sound;
    cooldown_off = λ e. ground (arith, v.cooldown_off e);
    cooldown_on = λ m e. ground (arith, v.cooldown_on m e);
    masterless = v.masterless;
    mastered = v.mastered;
  }

  arrives-Inv :
      (m : Message) (q : Chan Message) (mg : Manager)
      → IsSound m
      → send m mg.chamber.room.recv_queue ≡ ok q
      → Inv mg
      → Inv (with_queue mg q)
  unfolding send
  arrives-Inv m q mg s e v = record {
    room = untouched-Inv mg.chamber _ refl refl (λ k c h. (refl, refl, refl, refl)) v.room;
    queue_open = ground (arith, v.queue_open);
    queue_sound =
        let grown : mg.chamber.room.recv_queue.buffer ++ m ∷ [] ≡ q.buffer = ground arith in
        subst (All IsSound) grown (All-snoc IsSound _ m v.queue_sound s);
    buffered_sound = v.buffered_sound;
    cooldown_off = v.cooldown_off;
    cooldown_on = v.cooldown_on;
    masterless = v.masterless;
    mastered = v.mastered;
  }

  -- Every step keeps the manager well formed.
  pub Step-Inv : {mg mg' : Manager} → Step mg mg' → Inv mg → Inv mg'
  Step-Inv {mg} (round at e a r) v =
      Safely-ok (run_manager fl at e mg) Kept (run_manager-Kept fl at e mg a v) r
  Step-Inv {mg} (shutdown_expires now) v = shutdown_expires-Inv now mg v
  Step-Inv {mg} (cooldown_expires now) v = cooldown_expires-Inv now mg v
  Step-Inv {mg} (message_arrives m {q} s e) v = arrives-Inv m q mg s e v
  Step-Inv {mg} (clients_work conns u) v = record {
    room = untouched-Inv mg.chamber _ refl refl u v.room;
    queue_open = v.queue_open;
    queue_sound = v.queue_sound;
    buffered_sound = v.buffered_sound;
    cooldown_off = v.cooldown_off;
    cooldown_on = v.cooldown_on;
    masterless = v.masterless;
    mastered = v.mastered;
  }

  Reach-Inv : {mg mg' : Manager} → Reach mg mg' → Inv mg → Inv mg'
  Reach-Inv here v = v
  Reach-Inv (next r s) v = Step-Inv s (Reach-Inv r v)

-- The manager of a new room.
abbrev pub new_manager : Time → String → String → String → (ClientRef → ClientConn) → Manager
new_manager now id m_key g_key conns =
    start_manager now (record { room = new_room id m_key g_key now; conns = conns })

pub new_manager-Inv :
    (now : Time) (id m_key g_key : String) (conns : ClientRef → ClientConn)
    → Inv (new_manager now id m_key g_key conns)
unfolding start_manager new_room lookup
new_manager-Inv now id m_key g_key conns = record {
  room = record {
    clients_distinct = tt;
    masters_distinct = tt;
    keyed = λ k c h. cc;
    live = λ k c h. cc;
    masters_join = λ k c h. cc;
    masters_all = λ k c h m. cc;
  };
  queue_open = refl;
  queue_sound = tt;
  buffered_sound = λ m e. cc;
  cooldown_off = λ e. (refl, refl);
  cooldown_on = λ m e. cc;
  masterless = λ e. inl refl;
  mastered = λ n. absurd (n refl);
}

-- Whatever has happened to a room since it was made, its manager is well formed, and its next round
-- does not panic: if of its messages every state update carries a state, its clients are new when
-- they come in, and the server has not closed its channels.
reachable_safe :
    (fl : FloatOps) (now : Time) (id m_key g_key : String) (conns : ClientRef → ClientConn)
    → {mg : Manager} → Reach fl (new_manager now id m_key g_key conns) mg
    → (at : Readings) (e : Event) → IsAdmissible e mg
    → Inv mg × Safely (run_manager fl at e mg) Kept
reachable_safe fl now id m_key g_key conns {mg} r at e a =
    let v = Reach-Inv fl r (new_manager-Inv now id m_key g_key conns) in
    (v, run_manager-Kept fl at e mg a v)
