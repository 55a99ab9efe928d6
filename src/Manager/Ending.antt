-- ===== src/Manager/Ending.antt =====
-- What the deferred calls of RunManager leave as it was, if they complete.
use vchamber.Prelude.{
  ◌≡◌, refl, sym, ◌∙◌, ap, inl, inr, some, [], ◌∷◌, GoMap, drain, Partly, bind-Partly, Partly-map,
  Partly_of_ok, arith,
}
use vchamber.Room.{ClientRef, Chamber, Room, kill_client}
use vchamber.Room.Effects.{Removes, kill_client-Removes}
use vchamber.Manager.{Manager, kill_all, on_shutdown}

-- Of the room only the clients and masters have changed, and no message to be sent is lost.
abbrev pub Ends : Chamber → Chamber → Type 0
Ends ch ch' =
    (ch'.room ≡ record ch.room { clients = ch'.room.clients; masters = ch'.room.masters })
    × ((d : ClientRef) → (ch'.conns d).send_queue.buffer ≡ (ch.conns d).send_queue.buffer)

Ends-trans : (a b c : Chamber) → Ends a b → Ends b c → Ends a c
Ends-trans a b c (r, q) (r', q') = (
  r' ∙ ap (λ (x : Room). record x { clients = c.room.clients; masters = c.room.masters }) r,
  λ d. q' d ∙ q d,
)

kept-Ends : (c : ClientRef) (ch ch' : Chamber) → Removes c ch ch' → Ends ch ch'
kept-Ends c ch ch' (inl e) = rw e (refl, λ d. refl)
kept-Ends c ch ch' (inr (l, e, f)) = (
  e ∙ ap (λ (x : Room). record ch.room { clients = x.clients; masters = x.masters }) (sym e),
  λ d. rw f (ground arith),
)

kill_all-Ends : (cs : GoMap ClientRef) (ch : Chamber) → Partly (kill_all cs ch) (Ends ch)
unfolding kill_all
kill_all-Ends [] ch = (refl, λ d. refl)
kill_all-Ends ((k, c) ∷ cs) ch =
    bind-Partly (kill_client (some c) ch) _ (Removes c ch) (Ends ch) (kill_client-Removes c ch)
      (λ ch' r.
        Partly-map (kill_all cs ch') (Ends ch') (Ends ch) (kill_all-Ends cs ch')
          (λ ch'' q. Ends-trans ch ch' ch'' (kept-Ends c ch ch' r) q))

pub on_shutdown-Ends : (mg : Manager) → Partly (on_shutdown mg) (λ mg'. Ends mg.chamber mg'.chamber)
unfolding on_shutdown
on_shutdown-Ends mg =
    bind-Partly (drain mg.shutdown_timer) _ (λ t. Unit) _
      (Partly_of_ok (drain mg.shutdown_timer) (λ t. Unit) (λ t e. tt))
      (λ t u.
        bind-Partly (kill_all mg.chamber.room.clients mg.chamber) _ (Ends mg.chamber) _
          (kill_all-Ends mg.chamber.room.clients mg.chamber) (λ ch h. h))
