-- ===== src/Manager/Late.antt =====
-- A timer that goes off while the last master's removal is still asked for.
use vchamber.Prelude.{
  ◌≡◌, ◌≢◌, ◌∙◌, ok, reset, subst, ◌<◌, refl, true, some, [], length, lookup, Returns, Returns-map,
  Returns-and, arith,
}
use vchamber.Wire.{FloatOps}
use vchamber.Conn.{is_master}
use vchamber.Room.{ClientRef}
use vchamber.Room.Invariant.{IsFresh}
use vchamber.Room.Kill.{kill_other}
use vchamber.Manager.{
  default_masterless_timeout, Manager, Readings, on_client_in, on_client_out, on_shutdown,
}
use vchamber.Manager.Invariant.{Inv, IsEmpty}
use vchamber.Manager.Clients.{on_client_in_completes, on_client_in-fired, on_client_out-Inv}
use vchamber.Manager.Shutdown.{on_shutdown_empties}

abbrev rearmed : Readings → Manager → Manager
rearmed at mg = record mg {
  shutdown_timer = reset at.rearmed default_masterless_timeout mg.shutdown_timer;
}

-- The manager puts the shutdown timer back for a master that is gone already.
rearmed-eq :
    (at : Readings) (c : ClientRef) (mg : Manager)
    → Inv mg
    → mg.chamber.room.masters ≡ []
    → is_master (mg.chamber.conns c).state ≡ true
    → lookup (mg.chamber.conns c).id mg.chamber.room.clients ≢ some c
    → on_client_out at (some c) mg ≡ ok (rearmed at mg)
unfolding on_client_out
rearmed-eq at c mg v none_left master gone = rw (kill_other c mg.chamber v.room gone) (ground arith)

-- In a room without masters the shutdown timer has gone off, and before its well-formed manager
-- sees it, it serves a request to remove a master that is not in the room, and then a new master
-- with space in its queue comes in. The manager resets and stops the timer, but the old value is
-- still in its channel: the room is shut down with the new master in it.
pub late_shutdown :
    (fl : FloatOps) (at later : Readings) (c d : ClientRef) (mg : Manager)
    → Inv mg
    → mg.chamber.room.masters ≡ []
    → mg.shutdown_timer.fired ≡ true
    → is_master (mg.chamber.conns c).state ≡ true
    → lookup (mg.chamber.conns c).id mg.chamber.room.clients ≢ some c
    → IsFresh d mg.chamber
    → is_master (mg.chamber.conns d).state ≡ true
    → length (mg.chamber.conns d).send_queue.buffer < (mg.chamber.conns d).send_queue.capacity
    → Returns (on_client_out at (some c) mg) (λ mg₁.
      Returns (on_client_in fl later (some d) mg₁) (λ mg₂.
        (lookup (mg.chamber.conns d).id mg₂.chamber.room.masters ≡ some d)
        × Returns (on_shutdown mg₂) (λ mg₃. IsEmpty mg₃.chamber)))
late_shutdown fl at later c d mg v none_left fired gone_master gone fresh master space = rw eq (
    Returns-map (on_client_in fl later (some d) mg₁) _ _
      (Returns-and _ _ _ (on_client_in_completes d mg₁ fresh' v₁ fl later space)
        (on_client_in-fired d mg₁ fresh' v₁ fl later space refl master))
      (λ mg₂ ((v₂, bound, sent), (still, master₂, id₂)). (
        v₂.room.masters_all _ d bound master₂,
        Returns-map (on_shutdown mg₂) _ _ (on_shutdown_empties mg₂ v₂ (still ∙ fired))
            (λ mg₃ h. h.0),
      )))
  where
    mg₁ : Manager
    mg₁ = rearmed at mg

    eq : on_client_out at (some c) mg ≡ ok mg₁
    eq = rearmed-eq at c mg v none_left gone_master gone

    v₁ : Inv mg₁
    v₁ = subst (λ o. Returns o Inv) eq (on_client_out-Inv at c mg v)

    fresh' : IsFresh d mg₁.chamber
    fresh' = fresh
