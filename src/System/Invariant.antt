-- ===== src/System/Invariant.antt =====
-- What holds of a room and its clients' goroutines together.
use vchamber.Prelude.{
  ◌≡◌, ◌≢◌, refl, sym, ◌∙◌, inl, inr, Bool-cases, false, Option-cases, none, some, String, All,
  Chan, update, lookup, ◌==◌, arith,
}
use vchamber.Wire.{Message}
use vchamber.Conn.{ClientConn}
use vchamber.Conn.Effects.{IsSameClient}
use vchamber.Room.{ClientRef}
use vchamber.Room.Invariant.{IsFresh, IsOpen, Untouched, untouched-Inv}
use vchamber.Manager.{Manager}
use vchamber.Manager.Invariant.{Inv, IsSound}
use vchamber.Manager.Rounds.{with_conns, with_queue}
use vchamber.System.{absent, running, gone, Threads, System, conn_of, worked, Goroutine, activity}

pub record SystemInv (s : System) : Type 0 where
  pub manager : Inv s.manager
  -- no two clients have one ID
  pub unique :
      (c d : ClientRef)
      → (s.threads c).greeter ≢ absent
      → (s.threads d).greeter ≢ absent
      → (conn_of s c).id ≡ (conn_of s d).id
      → c ≡ d
  -- a client is registered by its handshake
  pub registered :
      (k : String) (c : ClientRef)
      → lookup k s.manager.chamber.room.clients ≡ some c
      → (s.threads c).greeter ≡ gone
  -- and its channels are closed after that only
  pub unclosed : (c : ClientRef) → (s.threads c).greeter ≡ running → IsOpen (conn_of s c)
  pub started :
      (c : ClientRef) (g : Goroutine)
      → (s.threads c).greeter ≡ absent
      → activity g (s.threads c) ≡ absent
  pub sound :
      (c : ClientRef) → (s.threads c).greeter ≢ absent → All IsSound (conn_of s c).recv_queue.buffer

-- Another content of the room's queue and of the connections.
pub replaced-Inv :
    (mg : Manager) (conns : ClientRef → ClientConn) (q : Chan Message)
    → Inv mg
    → Untouched mg.chamber (record mg.chamber { conns = conns })
    → q.closed ≡ false
    → All IsSound q.buffer
    → Inv (with_conns (with_queue mg q) conns)
replaced-Inv mg conns q v u o h = record {
  room = untouched-Inv mg.chamber _ refl refl u v.room;
  queue_open = o;
  queue_sound = h;
  buffered_sound = v.buffered_sound;
  cooldown_off = v.cooldown_off;
  cooldown_on = v.cooldown_on;
  masterless = v.masterless;
  mastered = v.mastered;
}

-- A client whose handshake is about to end may join.
pub greeting-IsFresh :
    (s : System) (c : ClientRef)
    → SystemInv s
    → (s.threads c).greeter ≡ running
    → IsFresh c s.manager.chamber
greeting-IsFresh s c v g = record {
  new_id = unregistered;
  not_closing = (v.unclosed c g).0;
  sendable = (v.unclosed c g).1;
}
  where
    unregistered : (lookup (conn_of s c).id s.manager.chamber.room.clients ≡ none)
    unregistered = elim (Option-cases (lookup (conn_of s c).id s.manager.chamber.room.clients)) [
      | inl e ↦ e
      | inr (d, e) ↦
          let there : (s.threads d).greeter ≡ gone = v.registered (conn_of s c).id d e in
          let same : d ≡ c =
            v.unique d c (λ x. cc) (λ x. cc) (v.manager.room.keyed (conn_of s c).id d e) in
          absurd (cc)
    ]

-- A round of the manager, which no goroutine of a client sees.
pub moved-SystemInv :
    (s : System) (mg : Manager) (th : ClientRef → Threads)
    → SystemInv s
    → Inv mg
    → ((d : ClientRef) → (mg.chamber.conns d).id ≡ (conn_of s d).id)
    → ((d : ClientRef) → (mg.chamber.conns d).recv_queue ≡ (conn_of s d).recv_queue)
    → ((d : ClientRef) → (th d).greeter ≢ absent → (s.threads d).greeter ≢ absent)
    → ((k : String) (d : ClientRef)
        → lookup k mg.chamber.room.clients ≡ some d
        → (th d).greeter ≡ gone)
    → ((d : ClientRef) → (th d).greeter ≡ running → IsOpen (mg.chamber.conns d))
    → ((d : ClientRef) (g : Goroutine) → (th d).greeter ≡ absent → activity g (th d) ≡ absent)
    → SystemInv (record { manager = mg; threads = th })
moved-SystemInv s mg th v inv ids queues known reg op st = record {
  manager = inv;
  unique = λ c d x y e. v.unique c d (known c x) (known d y) (sym (ids c) ∙ e ∙ ids d);
  registered = reg;
  unclosed = op;
  started = st;
  sound = λ c x. rw (queues c) (v.sound c (known c x));
}

pub at_each :
    (P : Threads → ClientConn → Type 0) (f : ClientRef → Threads) (g : ClientRef → ClientConn)
    (c : ClientRef) (t : Threads) (conn : ClientConn)
    → P t conn
    → ((d : ClientRef) → P (f d) (g d))
    → (d : ClientRef) → P (update f c t d) (update g c conn d)
at_each P f g c t conn h k d = elim (Bool-cases (c == d)) [ inl e ↦ rw e h | inr e ↦ rw e (k d) ]

-- A round of a goroutine of a client.
module _ (s : System) (c : ClientRef) (conn : ClientConn) (t : Threads) (v : SystemInv s) where
  module _ (same : IsSameClient (conn_of s c) conn) where
    pub worked-SystemInv :
        (q : Chan Message)
        → q.closed ≡ false
        → All IsSound q.buffer
        → All IsSound conn.recv_queue.buffer
        → t.greeter ≡ (s.threads c).greeter
        → t.greeter ≢ absent
        → SystemInv (worked c conn q t s)
    worked-SystemInv q o h k e n = record {
      manager =
          replaced-Inv s.manager (update s.manager.chamber.conns c conn) q v.manager
            (λ k d e. ground arith) o h;
      unique = λ a b x y i. ground (arith, v.unique a b);
      registered = λ j d l. ground (arith, v.registered j d l);
      unclosed = λ d x. ground (arith, v.unclosed d);
      started =
          at_each (λ u w. (g : Goroutine) → u.greeter ≡ absent → activity g u ≡ absent) s.threads
            s.manager.chamber.conns c t conn (λ g x. absurd (n x)) v.started;
      sound =
          at_each (λ u w. u.greeter ≢ absent → All IsSound w.recv_queue.buffer) s.threads
            s.manager.chamber.conns c t conn (λ x. k) v.sound;
    }
