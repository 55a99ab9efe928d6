-- ===== src/Manager/Stale.antt =====
-- An update that waits in the buffer while a newer one is applied.
use vchamber.Prelude.{
  ◌≡◌, true, some, String, [], ◌∷◌, ◌+◌, ◌<◌, lookup, length, drain, arith, Timer, Returns,
  Returns-map, Returns-Partly, Partly_of_Safely, bind-Returns, length-append, subst, ◌∙◌,
}
use vchamber.Wire.{
  FloatOps, Message, state_update, PlaybackStateMessage, PlaybackStateUpdateMessage,
}
use vchamber.Room.{ClientRef}
use vchamber.Room.Invariant as RoomInvariant
use vchamber.Room.Delivery.{Spacious}
use vchamber.Manager.{Manager, Readings, apply_update, flush, on_cooldown_over, on_message_in}
use vchamber.Manager.Steps.{asserted}
use vchamber.Manager.Invariant.{Inv}
use vchamber.Manager.Updates.{Arrived, is_cool, update_applied}
use vchamber.Manager.Showing.{
  ShownToAll, seen_at, IsWithin, apply_update-ShownToAll, on_message_in-ShownToAll,
}

-- Two more messages fit into the queue of every client.
abbrev pub IsRoomy : Manager → Type 0
IsRoomy mg =
    (k : String) (c : ClientRef)
    → lookup k mg.chamber.room.clients ≡ some c
    → length (mg.chamber.conns c).send_queue.buffer + 1 < (mg.chamber.conns c).send_queue.capacity

-- The buffered update is shown to all once the cooldown timer is out.
on_cooldown_over-ShownToAll :
    (fl : FloatOps) (at : Readings) (mg : Manager) (m : Message) (p : PlaybackStateUpdateMessage)
    (s : PlaybackStateMessage)
    → mg.buffered_update ≡ some m
    → m.payload ≡ state_update p
    → p.state ≡ some s
    → IsWithin fl at m.received_at s p.rtt
    → mg.update_cooldown_timer.fired ≡ true
    → RoomInvariant.Inv mg.chamber
    → Spacious mg.chamber.room.clients mg.chamber.conns
    → Returns (on_cooldown_over fl at mg) (λ mg'.
      ShownToAll (seen_at fl at m.received_at s p.rtt at.shown.sent) mg.chamber mg'.chamber)
unfolding on_cooldown_over flush
on_cooldown_over-ShownToAll fl at mg m p s b c e within fired v space =
    rw (fired, drain)
      (rw b (
        rw (asserted m.payload p c) (
          bind-Returns (apply_update fl at m p mg.chamber) _
            (ShownToAll (seen_at fl at m.received_at s p.rtt at.shown.sent) mg.chamber) _
            (apply_update-ShownToAll fl at m p s e within mg.chamber v space) (λ ch h. h))))

roomy_before : (mg : Manager) → IsRoomy mg → Spacious mg.chamber.room.clients mg.chamber.conns
roomy_before mg r k c h = omega (arith, r k c h)

module _ (s : PlaybackStateMessage) (mg mg₁ : Manager) (r : IsRoomy mg)
    (same : mg₁.chamber.room.clients ≡ mg.chamber.room.clients)
    (h : ShownToAll s mg.chamber mg₁.chamber) where
  -- After one message there is a place for another.
  roomy-Spacious : Spacious mg₁.chamber.room.clients mg₁.chamber.conns
  roomy-Spacious k c e =
      let e' : lookup k mg.chamber.room.clients ≡ some c =
        subst (λ m. lookup k m ≡ some c) same e in
      let (b, to, ty, pl) = h k c e' in
      rw (to, length-append (mg.chamber.conns c).send_queue.buffer (b ∷ [])) (r k c e')

-- An update that is older wins over a newer one. On a well-formed manager, if one is in the buffer
-- when another arrives and the cooldown is over, if neither is past its end when it is shown, and if
-- two messages fit into the queue of every client, then the newer one is shown to every client of
-- the room, and when the cooldown timer is out after it, every client is shown the older one: a
-- broadcast of exactly its source, status, speed and duration, with the position moved on.
pub stale_update_wins :
    (fl : FloatOps) (at later : Readings) (mg : Manager) (old new : Message)
    (p_old p_new : PlaybackStateUpdateMessage) (s_old s_new : PlaybackStateMessage)
    → Inv mg
    → IsRoomy mg
    → mg.buffered_update ≡ some old
    → old.payload ≡ state_update p_old
    → p_old.state ≡ some s_old
    → IsWithin fl later old.received_at s_old p_old.rtt
    → Arrived mg new p_new
    → p_new.state ≡ some s_new
    → IsWithin fl at new.received_at s_new p_new.rtt
    → is_cool at mg ≡ true
    → (t : Timer) → t.fired ≡ true
    → Returns (on_message_in fl at mg) (λ mg₁.
      ShownToAll
        (seen_at fl at new.received_at s_new p_new.rtt at.shown.sent)
        mg.chamber
        mg₁.chamber
      × Returns (on_cooldown_over fl later (record mg₁ { update_cooldown_timer = t })) (λ mg₂.
        ShownToAll
          (seen_at fl later old.received_at s_old p_old.rtt later.shown.sent)
          mg₁.chamber
          mg₂.chamber))
stale_update_wins fl at later mg old new p_old p_new s_old s_new v r b c e w a e' w' cool t fired =
    Returns-map (on_message_in fl at mg) _ _
      (Returns-Partly (on_message_in fl at mg) _ _
        (on_message_in-ShownToAll fl at new p_new s_new e' w' mg a cool v.room (roomy_before mg r))
        (Partly_of_Safely (on_message_in fl at mg) _
          (update_applied fl at mg new p_new a s_new v e' cool)))
      (λ mg₁ (h, (kept, room, same)). (
        h,
        on_cooldown_over-ShownToAll fl later (record mg₁ { update_cooldown_timer = t }) old p_old
            s_old (kept ∙ b) c e w fired room (roomy-Spacious _ mg mg₁ r same h),
      ))
