-- ===== src/System/Ghosts.antt =====
-- Clients in a room whose goroutines have gone.
use vchamber.Prelude.{
  is_armed, ◌≡◌, ◌≢◌, refl, ◌∙◌, ap, inl, inr, false, some, String, str_eq_iff, [], Chan, update,
  lookup, lookup-insert, lookup-delete, arith,
}
use vchamber.Wire.{FloatOps, Time, Message}
use vchamber.Conn.{ClientState, client_state_master, ClientConn}
use vchamber.Conn.Authority.{state_of}
use vchamber.Codec.{Json}
use vchamber.Room.{ClientRef, Room, Chamber}
use vchamber.Room.Effects.{Removes, removed_conns}
use vchamber.Manager.{Manager}
use vchamber.Manager.Effects.{internal-Minds, client_in-Told, client_out-Removes}
use vchamber.System.{
  Activity, absent, running, leaving, gone, Threads, System, conn_of, worked, managed, all_running,
  Goroutine, Step, Reach, here, next, connects, joins, departs, manages, receives, handles, sends,
  the_reader, the_handler, the_sender, activity, set_activity, after, IsNew, no_threads, new_system,
}
use vchamber.System as System
use vchamber.System.Invariant.{SystemInv, greeting-IsFresh}
use vchamber.System.Safety.{new_system-SystemInv, Reach-SystemInv, ReadsSound}
use vchamber.Room.Effects.{Removes, removed_conns}
use vchamber.Room.{join_client}

-- Registered under its ID, with nobody to receive, to send or to have it removed.
pub record IsGhost (c : ClientRef) (cid : String) (st : ClientState) (s : System) : Type 0 where
  pub named : (conn_of s c).id ≡ cid
  pub state : (conn_of s c).state ≡ st
  pub registered : lookup cid s.manager.chamber.room.clients ≡ some c
  pub left : s.threads c ≡ record { greeter = gone; reader = gone; handler = gone; sender = gone }

module _ (s : System) (c : ClientRef) (cid : String) (st : ClientState)
    (g : IsGhost c cid st s) where
  -- Another client's goroutine has run.
  worked-IsGhost :
      (d : ClientRef) (conn : ClientConn) (q : Chan Message) (t : Threads)
      → c ≢ d
      → IsGhost c cid st (worked d conn q t s)
  worked-IsGhost d conn q t n = record {
    named = ground (arith, g.named);
    state = ground (arith, g.state);
    registered = g.registered;
    left = ground (arith, g.left);
  }

  moved-IsGhost :
      (mg : Manager) (th : ClientRef → Threads)
      → (mg.chamber.conns c).id ≡ (conn_of s c).id
      → (mg.chamber.conns c).state ≡ (conn_of s c).state
      → lookup cid mg.chamber.room.clients ≡ some c
      → th c ≡ s.threads c
      → IsGhost c cid st (record { manager = mg; threads = th })
  moved-IsGhost mg th i j l e = record {
    named = i ∙ g.named;
    state = j ∙ g.state;
    registered = l;
    left = e ∙ g.left;
  }

  still_there :
      (d : ClientRef) (ch : Chamber)
      → c ≢ d
      → Removes d s.manager.chamber ch
      → lookup cid ch.room.clients ≡ some c
  still_there d ch n (inl e) = rw e g.registered
  still_there d ch n (inr (l, e, f)) = rw e (
      ground (
        arith,
        lookup-delete (conn_of s d).id cid s.manager.chamber.room.clients,
        str_eq_iff (conn_of s d).id cid,
        g.registered,
        g.named,
      ))

  -- A client that is about to do something is another one.
  elsewhere :
      (d : ClientRef) (h : Goroutine) (a : Activity)
      → activity h (s.threads d) ≡ a
      → a ≢ gone
      → c ≢ d
  elsewhere d the_reader a e n same = n (ground (arith, g.left))
  elsewhere d the_handler a e n same = n (ground (arith, g.left))
  elsewhere d the_sender a e n same = n (ground (arith, g.left))

  elsewhere_greeting : (d : ClientRef) (a : Activity) → (s.threads d).greeter ≡ a → a ≢ gone → c ≢ d
  elsewhere_greeting d a e n same = n (ground (arith, g.left))

  kept_thread : (d : ClientRef) (t : Threads) → c ≢ d → update s.threads d t c ≡ s.threads c
  kept_thread d t n = ground arith

  module _ (fl : FloatOps) (json : Json) (Presents : String → Type 0) (v : SystemInv s) where
    Step-IsGhost :
        {s' : System} → Step fl json Presents (ReadsSound json) s s' → IsGhost c cid st s'
    unfolding join_client
    Step-IsGhost (connects d hub r roomid token cid upgraded {conn} a p key new e) =
        worked-IsGhost d conn s.manager.chamber.room.recv_queue all_running
          (elsewhere_greeting d absent a (λ x. cc))
    Step-IsGhost (joins d at {mg} a e) =
        let (t, b) = client_in-Told fl at s.manager d e in
        moved-IsGhost mg _ (t.1 c).0 (t.1 c).1
          (ground (
            arith,
            lookup-insert (conn_of s d).id cid d s.manager.chamber.room.clients,
            ap (λ (z : Room). lookup cid z.clients) t.0,
            str_eq_iff (conn_of s d).id cid,
            g.registered,
            (greeting-IsFresh s d v a).new_id,
          ))
          (kept_thread d _ (elsewhere_greeting d running a (λ x. cc)))
    Step-IsGhost (departs d h at {mg} l e) =
        let (t, b) = client_out-Removes fl at s.manager d e in
        let n = elsewhere d h leaving l (λ x. cc) in
        moved-IsGhost mg _ (removed_conns d s.manager.chamber mg.chamber t c).0
          (removed_conns d s.manager.chamber mg.chamber t c).1 (still_there d mg.chamber n t)
          (kept_thread d _ n)
    Step-IsGhost (manages at e {mg} i r) =
        let (same, q) = internal-Minds fl at s.manager e i r in
        moved-IsGhost mg s.threads (q c).0 (q c).1 (rw same g.registered) refl
    Step-IsGhost (System.shutdown_expires now) =
        moved-IsGhost _ s.threads refl refl g.registered refl
    Step-IsGhost (System.cooldown_expires now) =
        moved-IsGhost _ s.threads refl refl g.registered refl
    Step-IsGhost (receives d now r {t} a y e) =
        worked-IsGhost d (state_of t) s.manager.chamber.room.recv_queue _
          (elsewhere d the_reader running a (λ x. cc))
    Step-IsGhost (handles d ready {t} a e) =
        worked-IsGhost d (state_of t).0 (state_of t).1 _
          (elsewhere d the_handler running a (λ x. cc))
    Step-IsGhost (sends d now written ready {t} a e) =
        worked-IsGhost d (state_of t).0 s.manager.chamber.room.recv_queue _
          (elsewhere d the_sender running a (λ x. cc))

module _ (fl : FloatOps) (json : Json) (Presents : String → Type 0) (c : ClientRef) (cid : String)
    (st : ClientState) where
  Reach-IsGhost :
      {s s' : System}
      → SystemInv s
      → IsGhost c cid st s
      → Reach fl json Presents (ReadsSound json) s s'
      → IsGhost c cid st s'
  Reach-IsGhost v g here = g
  Reach-IsGhost v g (next {s'} r t) =
      Step-IsGhost s' c cid st (Reach-IsGhost v g r) fl json Presents
        (Reach-SystemInv fl json Presents v r) t

-- Of a new room, in any interleaving of its clients' goroutines with its manager: once a master is
-- registered whose own goroutines have gone, it stays registered and the shutdown timer is not
-- running as long as the room goes on, if no state update that is read lacks a state and the server
-- has not closed the room's channels.
pub ghost_master_stays :
    (fl : FloatOps) (json : Json) (Presents : String → Type 0) (now : Time)
    (id m_key g_key : String) (conns : ClientRef → ClientConn) (c : ClientRef) (cid : String)
    {s s' : System}
    → Reach fl json Presents (ReadsSound json) (new_system now id m_key g_key conns) s
    → IsGhost c cid client_state_master s
    → Reach fl json Presents (ReadsSound json) s s'
    → (lookup cid s'.manager.chamber.room.clients ≡ some c)
      × (is_armed s'.manager.shutdown_timer ≡ false)
unfolding lookup
ghost_master_stays fl json Presents now id m_key g_key conns c cid {s} {s'} r g r' =
    let v = Reach-SystemInv fl json Presents (new_system-SystemInv now id m_key g_key conns) r in
    let g' = Reach-IsGhost fl json Presents c cid client_state_master v g r' in
    let v' = Reach-SystemInv fl json Presents v r' in
    let master : lookup cid s'.manager.chamber.room.masters ≡ some c =
      v'.manager.room.masters_all cid c g'.registered (rw g'.state refl) in
    (
      g'.registered,
      v'.manager.mastered (λ e. let nobody : lookup cid [] ≡ some c = rw e at master in cc),
    )
