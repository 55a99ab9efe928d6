-- ===== src/System/Safety.antt =====
-- A room and its clients' goroutines, however these take turns.
use vchamber.Prelude.{◌≡◌, ◌≢◌, refl, ◌∙◌, none, some, String, lookup, Partly-ok, Safely}
use vchamber.Wire.{FloatOps, Time}
use vchamber.Conn.{ClientConn, handle_vchamber_client, handle_ws_client_send}
use vchamber.Conn.Authority.{state_of}
use vchamber.Conn.Effects.{
  Handled, SentFrom, handle_vchamber_client-Handled, handle_ws_client_send-SentFrom,
}
use vchamber.Codec.{Json}
use vchamber.Receive.{Read, handle_ws_client_recv}
use vchamber.Receive.Effects.{Yields, ReceivedTo, handle_ws_client_recv-ReceivedTo}
use vchamber.Room.{ClientRef, new_room}
use vchamber.Manager.{
  Manager, Readings, Event, cooldown_over, message_in, client_in, client_out, ticked, shutdown,
  run_manager, start_manager,
}
use vchamber.Manager.Invariant.{Inv, IsSound, IsAdmissible, Kept}
use vchamber.Manager.Rounds.{
  new_manager-Inv, run_manager-Kept, shutdown_expires, cooldown_expires, Step-Inv,
}
use vchamber.Handshake.Joining.{admitted-IsGreeted}
use vchamber.System.{
  Activity, absent, running, leaving, gone, Threads, System, conn_of, worked, managed, all_running,
  Goroutine, Step, Reach, here, next, connects, joins, departs, manages, receives, handles, sends,
  the_reader, the_handler, the_sender, activity, set_activity, after, IsNew, no_threads, new_system,
}
use vchamber.System as System
use vchamber.System.Invariant.{SystemInv, greeting-IsFresh, moved-SystemInv, worked-SystemInv}
use vchamber.System.Moves.{
  connects-SystemInv, joins-SystemInv, departs-SystemInv, manages-SystemInv,
}

-- What is read is no state update that carries no state.
abbrev pub ReadsSound : Json → Read → Type 0
ReadsSound json r = (now : Time) → Yields IsSound json now r

module _ (fl : FloatOps) (json : Json) (Presents : String → Type 0) (s : System)
    (v : SystemInv s) where
  -- A goroutine of a client that has not connected has not started.
  connected :
      (c : ClientRef) (g : Goroutine)
      → activity g (s.threads c) ≡ running
      → (s.threads c).greeter ≢ absent
  connected c g e n = let idle = v.started c g n in absurd (cc)

  expired-SystemInv :
      (mg : Manager) → Inv mg → mg.chamber ≡ s.manager.chamber → SystemInv (managed mg s)
  expired-SystemInv mg i e =
      moved-SystemInv s mg s.threads v i (λ d. rw e refl) (λ d. rw e refl) (λ d x. x)
        (λ k d l. v.registered k d (rw e at l)) (λ d x. rw e (v.unclosed d x)) v.started

  pub Step-SystemInv : {s' : System} → Step fl json Presents (ReadsSound json) s s' → SystemInv s'
  Step-SystemInv (connects c hub r roomid token cid upgraded {conn} a p key new e) =
      connects-SystemInv s v c cid conn a new (admitted-IsGreeted hub roomid token cid upgraded e)
  Step-SystemInv (joins c at g e) = joins-SystemInv s v c fl at g e
  Step-SystemInv (departs c g at l e) = departs-SystemInv s v c fl at g l e
  Step-SystemInv (manages at e i r) = manages-SystemInv fl at e s v i r
  Step-SystemInv (System.shutdown_expires now) =
      expired-SystemInv _ (Step-Inv fl (shutdown_expires now) v.manager) refl
  Step-SystemInv (System.cooldown_expires now) =
      expired-SystemInv _ (Step-Inv fl (cooldown_expires now) v.manager) refl
  Step-SystemInv (receives c now r {t} g y e) =
      let here = connected c the_reader g in
      let (d, a) = received in
      worked-SystemInv s c (state_of t) (record (s.threads c) { reader = after t }) v
        (rw d (refl, refl, refl, refl)) s.manager.chamber.room.recv_queue v.manager.queue_open
        v.manager.queue_sound a refl here
    where
      received : ReceivedTo IsSound (conn_of s c) (state_of t)
      received =
          Partly-ok (handle_ws_client_recv json now r (conn_of s c))
            (λ u. ReceivedTo IsSound (conn_of s c) (state_of u))
            (handle_ws_client_recv-ReceivedTo IsSound json now (conn_of s c)
              (v.sound c (connected c the_reader g)) r (y now))
            e
  Step-SystemInv (handles c ready {t} g e) =
      let here = connected c the_handler g in
      let (i, o, h, k) = handled in
      worked-SystemInv s c (state_of t).0 (record (s.threads c) { handler = after t }) v i
        (state_of t).1 (o ∙ v.manager.queue_open) k h refl here
    where
      handled :
          Handled IsSound (λ m j p. p) (conn_of s c) s.manager.chamber.room.recv_queue (state_of t)
      handled =
          Partly-ok (handle_vchamber_client ready (conn_of s c) s.manager.chamber.room.recv_queue)
            (λ u.
              Handled IsSound (λ m j p. p) (conn_of s c) s.manager.chamber.room.recv_queue
                (state_of u))
            (handle_vchamber_client-Handled IsSound (λ m j p. p) ready (conn_of s c)
              s.manager.chamber.room.recv_queue (v.sound c (connected c the_handler g))
              v.manager.queue_sound)
            e
  Step-SystemInv (sends c now written ready {t} g e) =
      let here = connected c the_sender g in
      let (i, q) = sent in
      worked-SystemInv s c (state_of t).0 (record (s.threads c) { sender = after t }) v i
        s.manager.chamber.room.recv_queue v.manager.queue_open v.manager.queue_sound
        (rw q (v.sound c here)) refl here
    where
      sent : SentFrom (conn_of s c) (state_of t).0
      sent =
          Partly-ok (handle_ws_client_send fl now written ready (conn_of s c))
            (λ u. SentFrom (conn_of s c) (state_of u).0)
            (handle_ws_client_send-SentFrom fl now written ready (conn_of s c)) e

no_threads_idle : (g : Goroutine) → activity g no_threads ≡ absent
no_threads_idle the_reader = refl
no_threads_idle the_handler = refl
no_threads_idle the_sender = refl

pub new_system-SystemInv :
    (now : Time) (id m_key g_key : String) (conns : ClientRef → ClientConn)
    → SystemInv (new_system now id m_key g_key conns)
unfolding start_manager new_room lookup
new_system-SystemInv now id m_key g_key conns = record {
  manager = new_manager-Inv now id m_key g_key conns;
  unique = λ c d x. absurd (x refl);
  registered = λ k c l. cc;
  unclosed = λ c x. cc;
  started = λ c g x. no_threads_idle g;
  sound = λ c x. absurd (x refl);
}

pub Reach-SystemInv :
    (fl : FloatOps) (json : Json) (Presents : String → Type 0) {s s' : System}
    → SystemInv s
    → Reach fl json Presents (ReadsSound json) s s'
    → SystemInv s'
Reach-SystemInv fl json Presents v here = v
Reach-SystemInv fl json Presents v (next {s'} r st) =
    Step-SystemInv fl json Presents s' (Reach-SystemInv fl json Presents v r) st

-- What the manager's select may take: a client comes in from its handshake, and goes out at the
-- request of a goroutine.
abbrev pub IsPossible : Event → System → Type 0
IsPossible (client_in none) s = ⊥
IsPossible (client_in (some c)) s = (s.threads c).greeter ≡ running
IsPossible (client_out none) s = ⊥
IsPossible (client_out (some c)) s = (g : Goroutine) × (activity g (s.threads c) ≡ leaving)
IsPossible cooldown_over s = Unit
IsPossible message_in s = Unit
IsPossible ticked s = Unit
IsPossible shutdown s = Unit

possible-IsAdmissible :
    (e : Event) (s : System) → SystemInv s → IsPossible e s → IsAdmissible e s.manager
possible-IsAdmissible (client_in none) s v p = p
possible-IsAdmissible (client_in (some c)) s v p = greeting-IsFresh s c v p
possible-IsAdmissible (client_out none) s v p = p
possible-IsAdmissible (client_out (some c)) s v p = tt
possible-IsAdmissible cooldown_over s v p = tt
possible-IsAdmissible message_in s v p = tt
possible-IsAdmissible ticked s v p = tt
possible-IsAdmissible shutdown s v p = tt

-- A new room, and then clients that connect, send, are answered and leave, in any interleaving with
-- the rounds of the manager, if no state update that is read lacks a state and the server has not
-- closed the room's channels: whatever the manager's select takes next, its round does not panic.
-- If it goes on it is well formed, and if it returns its room is empty.
pub interleaved_safe :
    (fl : FloatOps) (json : Json) (Presents : String → Type 0) (now : Time)
    (id m_key g_key : String) (conns : ClientRef → ClientConn) {s : System}
    → Reach fl json Presents (ReadsSound json) (new_system now id m_key g_key conns) s
    → (at : Readings) (e : Event) → IsPossible e s
    → Safely (run_manager fl at e s.manager) Kept
interleaved_safe fl json Presents now id m_key g_key conns {s} r at e p =
    let v = Reach-SystemInv fl json Presents (new_system-SystemInv now id m_key g_key conns) r in
    run_manager-Kept fl at e s.manager (possible-IsAdmissible e s v p) v.manager
