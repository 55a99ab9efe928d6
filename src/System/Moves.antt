-- ===== src/System/Moves.antt =====
-- The rounds of a room's manager, with what a client's handshake or goroutine waits for.
use vchamber.Prelude.{
  ◌≡◌, ◌≢◌, sym, ◌∙◌, ap, inl, inr, Bool-cases, some, String, All, update, lookup, lookup-insert,
  ◌==◌, arith, ok, Safely-ok,
}
use vchamber.Wire.{FloatOps}
use vchamber.Conn.{ClientConn, again}
use vchamber.Room.{ClientRef, Room, join_client}
use vchamber.Room.Effects.{quiet-IsOpen, removed_conns, removed-IsOpen, removed_clients}
use vchamber.Manager.{
  Manager, Readings, Event, cooldown_over, message_in, client_in, client_out, ticked, shutdown,
  run_manager,
}
use vchamber.Manager.Invariant.{Inv, IsSound, IsAdmissible, Kept}
use vchamber.Manager.Effects.{IsInternal, internal-Minds, client_in-Told, client_out-Removes}
use vchamber.Manager.Rounds.{run_manager-Kept}
use vchamber.Handshake.Joining.{IsGreeted}
use vchamber.System.{
  absent, running, leaving, gone, System, conn_of, worked, managed, all_running, Goroutine,
  the_reader, the_handler, the_sender, activity, set_activity, IsNew,
}
use vchamber.System.Invariant.{SystemInv, replaced-Inv, greeting-IsFresh, moved-SystemInv, at_each}

-- A round of the manager that goes on keeps it well formed.
round-Inv :
    (fl : FloatOps) (at : Readings) (e : Event) (mg : Manager) {mg' : Manager}
    → IsAdmissible e mg
    → Inv mg
    → run_manager fl at e mg ≡ ok (again mg')
    → Inv mg'
round-Inv fl at e mg a v r =
    Safely-ok (run_manager fl at e mg) Kept (run_manager-Kept fl at e mg a v) r

internal-IsAdmissible : (e : Event) (mg : Manager) → IsInternal e → IsAdmissible e mg
internal-IsAdmissible cooldown_over mg i = tt
internal-IsAdmissible message_in mg i = tt
internal-IsAdmissible ticked mg i = tt
internal-IsAdmissible (client_in c) mg i = absurd i
internal-IsAdmissible (client_out c) mg i = absurd i
internal-IsAdmissible shutdown mg i = absurd i

module _ (s : System) (v : SystemInv s) (c : ClientRef) where
  pub connects-SystemInv :
      (cid : String) (conn : ClientConn)
      → (s.threads c).greeter ≡ absent
      → IsNew cid s
      → IsGreeted cid conn
      → SystemInv (worked c conn s.manager.chamber.room.recv_queue all_running s)
  connects-SystemInv cid conn a new (state, g) = record {
    manager =
        replaced-Inv s.manager (update s.manager.chamber.conns c conn)
          s.manager.chamber.room.recv_queue v.manager (λ k d l. ground (arith, v.registered k d l))
          v.manager.queue_open v.manager.queue_sound;
    unique =
        λ x y p q i. ground (arith, v.unique x y, new x, new y, ap (λ (z : ClientConn). z.id) g);
    registered = λ k d l. ground (arith, v.registered k d l);
    unclosed = λ d x. ground (arith, v.unclosed d);
    started =
        at_each (λ u w. (g : Goroutine) → u.greeter ≡ absent → activity g u ≡ absent) s.threads
          s.manager.chamber.conns c all_running conn (λ h x. cc) v.started;
    sound =
        at_each (λ u w. u.greeter ≢ absent → All IsSound w.recv_queue.buffer) s.threads
          s.manager.chamber.conns c all_running conn (λ x. rw g tt) v.sound;
  }

  pub joins-SystemInv :
      (fl : FloatOps) (at : Readings) {mg : Manager}
      → (s.threads c).greeter ≡ running
      → run_manager fl at (client_in (some c)) s.manager ≡ ok (again mg)
      → SystemInv (record s {
        manager = mg;
        threads = update s.threads c (record (s.threads c) { greeter = gone });
      })
  unfolding join_client
  joins-SystemInv fl at {mg} g r =
      let (t, b) = client_in-Told fl at s.manager c r in
      moved-SystemInv s mg _ v
        (round-Inv fl at (client_in (some c)) s.manager (greeting-IsFresh s c v g) v.manager r)
        (λ d. (t.1 d).0) (λ d. (t.1 d).2) (λ d x. ground arith)
        (λ k d l. ground (
          arith,
          lookup-insert (conn_of s c).id k c s.manager.chamber.room.clients,
          ap (lookup k) (ap (λ (z : Room). z.clients) t.0),
          v.registered k d,
        ))
        (λ d x.
          quiet-IsOpen (conn_of s d) (mg.chamber.conns d) (t.1 d) (v.unclosed d (ground arith)))
        (λ d h x. ground (arith, v.started d h))

  kept_greeter :
      (d : ClientRef) (g : Goroutine)
      → (update s.threads c (set_activity g gone (s.threads c)) d).greeter ≡ (s.threads d).greeter
  kept_greeter d the_reader = ground arith
  kept_greeter d the_handler = ground arith
  kept_greeter d the_sender = ground arith

  departed :
      (d : ClientRef) (g h : Goroutine)
      → activity g (s.threads c) ≡ leaving
      → (s.threads d).greeter ≡ absent
      → activity h (update s.threads c (set_activity g gone (s.threads c)) d) ≡ absent
  departed d g h l a = elim (Bool-cases (c == d)) [
    | inl e ↦
        let same : c ≡ d = ground arith in
        let none_there : activity g (s.threads d) ≡ absent = v.started d g a in absurd (cc)
    | inr e ↦ rw e (v.started d h a)
  ]

  pub departs-SystemInv :
      (fl : FloatOps) (at : Readings) (g : Goroutine) {mg : Manager}
      → activity g (s.threads c) ≡ leaving
      → run_manager fl at (client_out (some c)) s.manager ≡ ok (again mg)
      → SystemInv (record s {
        manager = mg;
        threads = update s.threads c (set_activity g gone (s.threads c));
      })
  departs-SystemInv fl at g {mg} l r =
      let (t, b) = client_out-Removes fl at s.manager c r in
      moved-SystemInv s mg _ v (round-Inv fl at (client_out (some c)) s.manager tt v.manager r)
        (λ d. (removed_conns c s.manager.chamber mg.chamber t d).0)
        (λ d. (removed_conns c s.manager.chamber mg.chamber t d).2)
        (λ d x e. x (kept_greeter d g ∙ e))
        (λ k d m.
          kept_greeter d g
          ∙ v.registered k d (removed_clients c s.manager.chamber mg.chamber k d t m))
        (λ d x.
          removed-IsOpen c s.manager.chamber mg.chamber t d
            (λ m n.
              let there : (s.threads c).greeter ≡ gone = v.registered (conn_of s c).id c m in
              let run : (s.threads d).greeter ≡ running = sym (kept_greeter d g) ∙ x in absurd (cc))
            (v.unclosed d (sym (kept_greeter d g) ∙ x)))
        (λ d h x. departed d g h l (sym (kept_greeter d g) ∙ x))

pub manages-SystemInv :
    (fl : FloatOps) (at : Readings) (e : Event) (s : System) {mg : Manager}
    → SystemInv s
    → IsInternal e
    → run_manager fl at e s.manager ≡ ok (again mg)
    → SystemInv (managed mg s)
manages-SystemInv fl at e s {mg} v i r =
    let (same, q) = internal-Minds fl at s.manager e i r in
    moved-SystemInv s mg s.threads v
      (round-Inv fl at e s.manager (internal-IsAdmissible e s.manager i) v.manager r) (λ d. (q d).0)
      (λ d. (q d).2) (λ d x. x) (λ k d l. v.registered k d (rw same at l))
      (λ d x. quiet-IsOpen (conn_of s d) (mg.chamber.conns d) (q d) (v.unclosed d x)) v.started
