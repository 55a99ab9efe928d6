-- ===== src/System/Guests/Steps.antt =====
-- The steps of a room to whose master key nobody comes.
use vchamber.Prelude.{
  ◌≡◌, ◌≢◌, refl, ◌∙◌, ap, inl, inr, false, none, String, List, All, [], ◌∷◌, Chan, update,
  Partly-ok, arith,
}
use vchamber.Wire.{zero_float, FloatOps, Time, Message}
use vchamber.Conn.{handle_ws_client_send, ClientConn, is_master, handle_vchamber_client}
use vchamber.Conn.Authority.{state_of, Forwards, handle_vchamber_client-Forwards}
use vchamber.Conn.Effects.{
  Handled, SentFrom, handle_vchamber_client-Handled, handle_ws_client_send-SentFrom,
}
use vchamber.Codec.{Json}
use vchamber.Receive.{Read, frame, read_error, handle_ws_client_recv}
use vchamber.Receive.Effects.{ReceivedTo, Yields, handle_ws_client_recv-ReceivedTo}
use vchamber.Room.{ClientRef, new_room, join_client}
use vchamber.Room.Effects.{removed_conns}
use vchamber.Manager.{Manager, start_manager}
use vchamber.Manager.Effects.{client_in-Told, client_out-Removes, internal-Minds}
use vchamber.System.{
  absent, leaving, gone, Threads, worked, managed, activity, set_activity, all_running, after,
  Goroutine, the_reader, the_handler, the_sender, System, conn_of, Step, connects, joins, departs,
  manages, shutdown_expires, cooldown_expires, receives, handles, sends, Reach, here, next,
  new_system,
}
use vchamber.System.Guests.{
  stopped_at, IsCalm, guest_admitted, internal-IsCalm, client_in-IsCalm, client_out-IsCalm,
}

All-Unit : {A : Type 0} (xs : List A) → All (λ m. Unit {0}) xs
All-Unit [] = tt
All-Unit (x ∷ xs) = (tt, All-Unit xs)

Yields-Unit : (json : Json) (now : Time) (r : Read) → Yields (λ m. Unit {0}) json now r
Yields-Unit json now (frame buf) = λ e. tt
Yields-Unit json now read_error = tt

-- Nobody that has connected is a master.
pub record NoMasters (s : System) : Type 0 where
  pub guests :
      (c : ClientRef) → (s.threads c).greeter ≢ absent → is_master (conn_of s c).state ≡ false
  pub started : (c : ClientRef) → (s.threads c).handler ≢ absent → (s.threads c).greeter ≢ absent

-- The connections and the threads of a step by one goroutine of a client.
module _ (s : System) (h : NoMasters s) (c : ClientRef) (t : Threads) where
  worked-NoMasters :
      (conn : ClientConn) (q : Chan Message)
      → (t.greeter ≢ absent → is_master conn.state ≡ false)
      → (t.handler ≢ absent → t.greeter ≢ absent)
      → NoMasters (worked c conn q t s)
  worked-NoMasters conn q g i = record {
    guests = λ d. ground (arith, h.guests d);
    started = λ d. ground (arith, h.started d);
  }

  told-NoMasters :
      (mg : Manager)
      → ((d : ClientRef) → (mg.chamber.conns d).state ≡ (conn_of s d).state)
      → (t.greeter ≢ absent → (s.threads c).greeter ≢ absent)
      → (t.handler ≢ absent → t.greeter ≢ absent)
      → NoMasters (record s { manager = mg; threads = update s.threads c t })
  told-NoMasters mg e g i = record {
    guests = λ d. rw (e d) (ground (arith, h.guests d));
    started = λ d. ground (arith, h.started d);
  }

managed-NoMasters :
    (s : System) (mg : Manager)
    → NoMasters s
    → ((d : ClientRef) → (mg.chamber.conns d).state ≡ (conn_of s d).state)
    → NoMasters (managed mg s)
managed-NoMasters s mg h e = record { guests = λ d. rw (e d) (h.guests d); started = h.started }

-- A goroutine of a client that left its loop is done.
set_activity-greeter :
    (g : Goroutine) (t : Threads)
    → ((set_activity g gone t).greeter ≡ t.greeter)
      × (activity g t ≡ leaving → (set_activity g gone t).handler ≢ absent → t.handler ≢ absent)
set_activity-greeter the_reader t = (refl, λ e n. n)
set_activity-greeter the_handler t = (refl, λ e n. ground arith)
set_activity-greeter the_sender t = (refl, λ e n. n)

-- A client that is no master adds nothing to the room's queue.
not_forwarded :
    (c : ClientConn) (q q' : Chan Message) → is_master c.state ≡ false → Forwards c q q' → q' ≡ q
not_forwarded c q q' e (inl same) = same
not_forwarded c q q' e (inr (m, rest, i, a, b, d)) = cc

module _ (fl : FloatOps) (calm : fl.gt zero_float zero_float ≡ false) (now : Time) (json : Json)
    (k : String) (s : System) (h : IsCalm now k s.manager) (n : NoMasters s) where
  guests_kept :
      {s' : System}
      → Step fl json (λ t. t ≢ k) (λ r. Unit) s s'
      → IsCalm now k s'.manager × NoMasters s'
  unfolding join_client
  guests_kept (connects c hub r roomid token cid upgraded a p key new e) = (
    h,
    worked-NoMasters s n c all_running _ s.manager.chamber.room.recv_queue
        (λ g. guest_admitted hub roomid token cid upgraded e (λ x. p (x ∙ key ∙ h.0))) (λ x y. cc),
  )
  guests_kept (joins c at {mg} g e) = (
    client_in-IsCalm fl calm now k at s.manager h c e,
    told-NoMasters s n c _ mg (λ d. ((client_in-Told fl at s.manager c e).0.1 d).1)
        (λ x. ground arith) (λ x y. cc),
  )
  guests_kept (departs c g at {mg} l e) = (
    client_out-IsCalm fl calm now k at s.manager h c e,
    told-NoMasters s n c (set_activity g gone (s.threads c)) mg
        (λ d.
          (removed_conns c s.manager.chamber mg.chamber (client_out-Removes fl at s.manager c e).0
            d).1)
        (rw (set_activity-greeter g (s.threads c)).0 (λ x. x))
        (λ x.
          rw (set_activity-greeter g (s.threads c)).0
            (n.started c ((set_activity-greeter g (s.threads c)).1 l x))),
  )
  guests_kept (manages at e {mg} i r) = (
    internal-IsCalm fl calm now k at s.manager h e i r,
    managed-NoMasters s mg n (λ d. ((internal-Minds fl at s.manager e i r).1 d).1),
  )
  guests_kept (shutdown_expires now') = (h, managed-NoMasters s _ n (λ d. refl))
  guests_kept (cooldown_expires now') = (h, managed-NoMasters s _ n (λ d. refl))
  guests_kept (receives c now' r {t} g y e) = (
    h,
    worked-NoMasters s n c (record (s.threads c) { reader = after t }) (state_of t)
        s.manager.chamber.room.recv_queue
        (λ x.
          ap (λ (z : ClientConn). is_master z.state)
            (Partly-ok (handle_ws_client_recv json now' r (conn_of s c))
              (λ t. ReceivedTo (λ m. Unit) (conn_of s c) (state_of t))
              (handle_ws_client_recv-ReceivedTo (λ m. Unit) json now' (conn_of s c) (All-Unit _) r
                (Yields-Unit json now' r))
              e).0
          ∙ n.guests c x)
        (n.started c),
  )
  guests_kept (handles c ready {t} g e) =
      let w : Handled (λ m. Unit) (λ m j p. tt) (conn_of s c) s.manager.chamber.room.recv_queue
          (state_of t) =
        Partly-ok (handle_vchamber_client ready (conn_of s c) s.manager.chamber.room.recv_queue)
          (λ t.
            Handled (λ m. Unit) (λ m j p. tt) (conn_of s c) s.manager.chamber.room.recv_queue
              (state_of t))
          (handle_vchamber_client-Handled (λ m. Unit) (λ m j p. tt) ready (conn_of s c)
            s.manager.chamber.room.recv_queue (All-Unit _) (All-Unit _))
          e in
      let here : (s.threads c).greeter ≢ absent = n.started c (λ x. cc) in
      let same : (state_of t).1 ≡ s.manager.chamber.room.recv_queue =
        not_forwarded (conn_of s c) s.manager.chamber.room.recv_queue (state_of t).1
          (n.guests c here)
          (handle_vchamber_client-Forwards ready (conn_of s c) s.manager.chamber.room.recv_queue
            e) in
      (
        rw same h,
        worked-NoMasters s n c (record (s.threads c) { handler = after t }) (state_of t).0
            (state_of t).1 (λ x. ap is_master w.0.1 ∙ n.guests c x) (λ x. here),
      )
  guests_kept (sends c now' written ready {t} g e) = (
    h,
    worked-NoMasters s n c (record (s.threads c) { sender = after t }) (state_of t).0
        s.manager.chamber.room.recv_queue
        (λ x.
          ap is_master
            (Partly-ok (handle_ws_client_send fl now' written ready (conn_of s c))
              (λ t. SentFrom (conn_of s c) (state_of t).0)
              (handle_ws_client_send-SentFrom fl now' written ready (conn_of s c)) e).0.1
          ∙ n.guests c x)
        (n.started c),
  )

guests_held :
    (fl : FloatOps) (json : Json) (now : Time) (id m_key g_key : String)
    (conns : ClientRef → ClientConn) {s : System}
    → fl.gt zero_float zero_float ≡ false
    → Reach fl json (λ t. t ≢ m_key) (λ r. Unit) (new_system now id m_key g_key conns) s
    → IsCalm now m_key s.manager × NoMasters s
unfolding start_manager new_room
guests_held fl json now id m_key g_key conns calm here =
    ((refl, refl, refl, refl, refl), record { guests = λ c n. absurd (n refl); started = λ c n. n })
guests_held fl json now id m_key g_key conns calm (next {s'} r st) =
    let (h, n) = guests_held fl json now id m_key g_key conns calm r in
    guests_kept fl calm now json m_key s' h n st

-- Of a new room to whose master key nobody comes, whatever the clients send and however the
-- goroutines take turns: the playback state stays the one that the room began with, no message
-- waits for the manager and no update is kept, if 0 > 0 is false of floats.
pub guests_change_nothing :
    (fl : FloatOps) (json : Json) (now : Time) (id m_key g_key : String)
    (conns : ClientRef → ClientConn) {s : System}
    → fl.gt zero_float zero_float ≡ false
    → Reach fl json (λ t. t ≢ m_key) (λ r. Unit) (new_system now id m_key g_key conns) s
    → (s.manager.chamber.room.state ≡ stopped_at now)
      × (s.manager.chamber.room.recv_queue.buffer ≡ [])
      × (s.manager.buffered_update ≡ none)
guests_change_nothing fl json now id m_key g_key conns calm r =
    let (h, n) = guests_held fl json now id m_key g_key conns calm r in (h.1, h.2, h.4)
