-- ===== src/Manager/Steps.antt =====
-- Each case of the select keeps the invariant.
use vchamber.Prelude.{
  ◌≡◌, refl, inl, inr, true, false, Bool-cases, Option, none, some, Option-cases, List, [], ◌∷◌,
  All, if◌then◌else◌, int_eq, ltb, recv, ok, subst, Safely, bind-Safely, drain, arith,
}
use vchamber.Wire.{
  FloatOps, Message, Payload, state_update, PlaybackStateMessage, PlaybackStateUpdateMessage,
  message_type_state_update,
}
use vchamber.Playback.{update_state, since}
use vchamber.Conn.{ClientConn}
use vchamber.Room.{ClientRef, Chamber, broadcast_state}
use vchamber.Room.Invariant as RoomInvariant
use vchamber.Room.Invariant.{IsFresh, Keeps, same-Inv, join-Inv, AllSame}
use vchamber.Room.Broadcast.{broadcast_state-Keeps}
use vchamber.Manager.{
  update_cooldown, Manager, Readings, apply_update, assert_update, flush, on_cooldown_over, buffer,
  take_update, handle_room_message, on_message_in, on_tick,
}
use vchamber.Manager.Invariant.{Inv, IsUpdate, IsSound}

pub AllSame-refl : (conns : ClientRef → ClientConn) → AllSame conns conns
AllSame-refl conns c = (refl, refl, refl, refl)

keep-Inv :
    (mg : Manager) (ch : Chamber) → Inv mg → Keeps mg.chamber ch → Inv (record mg { chamber = ch })
keep-Inv mg ch v (room, cs, ms, q) = record {
  room = room;
  queue_open = rw q v.queue_open;
  queue_sound = rw q v.queue_sound;
  buffered_sound = v.buffered_sound;
  cooldown_off = v.cooldown_off;
  cooldown_on = v.cooldown_on;
  masterless = rw ms v.masterless;
  mastered = rw ms v.mastered;
}

pub asserted :
    (q : Payload) (p : PlaybackStateUpdateMessage) → q ≡ state_update p → assert_update q ≡ ok p
unfolding assert_update
asserted q p e = ground arith

module _ (fl : FloatOps) (at : Readings) where
  pub apply_update-Keeps :
      (m : Message) (p : PlaybackStateUpdateMessage) (s : PlaybackStateMessage) (ch : Chamber)
      → p.state ≡ some s
      → RoomInvariant.Inv ch
      → Safely (apply_update fl at m p ch) (Keeps ch)
  unfolding apply_update update_state
  apply_update-Keeps m p s ch e v =
      rw (e, update_state)
        (broadcast_state-Keeps fl at.shown _ (same-Inv ch _ refl refl (AllSame-refl ch.conns) v))

  flush-Keeps :
      (o : Option Message) (ch : Chamber)
      → ((m : Message) → o ≡ some m → IsUpdate m)
      → RoomInvariant.Inv ch
      → Safely (flush fl at o ch) (Keeps ch)
  unfolding flush
  flush-Keeps none ch sound v = (v, refl, refl, refl)
  flush-Keeps (some m) ch sound v =
      let (p, s, e, h) = sound m refl in
      rw (asserted m.payload p e) (apply_update-Keeps m p s ch h v)

  -- After the drained timer.
  drained-Inv :
      (mg : Manager) (ch : Chamber)
      → mg.update_cooldown_timer.fired ≡ true
      → Inv mg
      → Keeps mg.chamber ch
      → Inv (record mg {
        chamber = ch;
        buffered_update = none;
        update_cooldown_timer = record mg.update_cooldown_timer { fired = false };
      })
  drained-Inv mg ch f v k = record {
    room = (keep-Inv mg ch v k).room;
    queue_open = (keep-Inv mg ch v k).queue_open;
    queue_sound = (keep-Inv mg ch v k).queue_sound;
    buffered_sound = λ m e. cc;
    cooldown_off = λ e. elim (Option-cases mg.buffered_update) [
      | inl off ↦ ground (arith, v.cooldown_off off)
      | inr (m, on) ↦ ground (arith, v.cooldown_on m on)
    ];
    cooldown_on = λ m e. cc;
    masterless = (keep-Inv mg ch v k).masterless;
    mastered = (keep-Inv mg ch v k).mastered;
  }

  pub on_cooldown_over-Inv : (mg : Manager) → Inv mg → Safely (on_cooldown_over fl at mg) Inv
  unfolding on_cooldown_over
  on_cooldown_over-Inv mg v = elim (Bool-cases mg.update_cooldown_timer.fired) [
    | inr quiet ↦ rw (quiet, drain) tt
    | inl fired ↦
        rw (fired, drain)
          (bind-Safely (flush fl at mg.buffered_update mg.chamber) _ (Keeps mg.chamber) Inv
            (flush-Keeps mg.buffered_update mg.chamber v.buffered_sound v.room)
            (λ ch k. drained-Inv mg ch fired v k))
  ]

  pub on_tick-Inv : (mg : Manager) → Inv mg → Safely (on_tick fl at mg) Inv
  unfolding on_tick
  on_tick-Inv mg v =
      bind-Safely (broadcast_state fl at.shown mg.chamber) _ (Keeps mg.chamber) Inv
        (broadcast_state-Keeps fl at.shown mg.chamber v.room) (λ ch k. keep-Inv mg ch v k)

  buffer-Inv : (m : Message) (mg : Manager) → IsUpdate m → Inv mg → Inv (buffer at m mg)
  unfolding buffer
  buffer-Inv m mg u v = record {
    room = v.room;
    queue_open = v.queue_open;
    queue_sound = v.queue_sound;
    buffered_sound = λ n e. let same : m ≡ n = ground arith in subst IsUpdate same u;
    cooldown_off = λ e. cc;
    cooldown_on = λ n e. elim (Option-cases mg.buffered_update) [
      | inl off ↦ ground (arith, v.cooldown_off off)
      | inr (old, on) ↦ ground (arith, v.cooldown_on old on)
    ];
    masterless = v.masterless;
    mastered = v.mastered;
  }

  take_update-Inv :
      (m : Message) (p : PlaybackStateUpdateMessage) (s : PlaybackStateMessage) (mg : Manager)
      → m.payload ≡ state_update p
      → p.state ≡ some s
      → Inv mg
      → Safely (take_update fl at m p mg) Inv
  unfolding take_update
  take_update-Inv m p s mg e h v =
      elim (Bool-cases
        (ltb update_cooldown (since at.compared mg.chamber.room.state.last_updated))) [
          | inl cool ↦
              rw (cool, if◌then◌else◌)
                (bind-Safely (apply_update fl at m p mg.chamber) _ (Keeps mg.chamber) Inv
                  (apply_update-Keeps m p s mg.chamber h v.room) (λ ch k. keep-Inv mg ch v k))
          | inr hot ↦ rw (hot, if◌then◌else◌) (buffer-Inv m mg (p, s, e, h) v)
        ]

  handle_room_message-Inv :
      (m : Message) (mg : Manager)
      → IsSound m
      → Inv mg
      → Safely (handle_room_message fl at (some m) mg) Inv
  unfolding handle_room_message
  handle_room_message-Inv m mg sound v =
      elim (Bool-cases (int_eq m.type message_type_state_update)) [
        | inr other ↦ rw (other, if◌then◌else◌) v
        | inl changed ↦
            let (p, s, e, h) = sound changed in
            rw (changed, if◌then◌else◌)
              (rw (asserted m.payload p e) (take_update-Inv m p s mg e h v))
      ]

  -- The queue of the room after a message was taken from it.
  abbrev pub taken : Manager → List Message → Manager
  taken mg rest = record mg {
    chamber = record mg.chamber {
      room = record mg.chamber.room {
        recv_queue = record mg.chamber.room.recv_queue { buffer = rest };
      };
    };
  }

  pub taken-Inv :
      (mg : Manager) (rest : List Message) → All IsSound rest → Inv mg → Inv (taken mg rest)
  taken-Inv mg rest sound v = record {
    room = same-Inv mg.chamber _ refl refl (AllSame-refl mg.chamber.conns) v.room;
    queue_open = v.queue_open;
    queue_sound = sound;
    buffered_sound = v.buffered_sound;
    cooldown_off = v.cooldown_off;
    cooldown_on = v.cooldown_on;
    masterless = v.masterless;
    mastered = v.mastered;
  }

  take_from :
      (ms : List Message) (mg : Manager)
      → mg.chamber.room.recv_queue.buffer ≡ ms
      → Inv mg
      → Safely (on_message_in fl at mg) Inv
  unfolding on_message_in recv
  take_from [] mg e v = rw (e, recv) (rw (v.queue_open, if◌then◌else◌) tt)
  take_from (m ∷ rest) mg e v =
      rw (e, recv)
        (let sound = subst (All IsSound) e v.queue_sound in
          handle_room_message-Inv m (taken mg rest) sound.0 (taken-Inv mg rest sound.1 v))

  pub on_message_in-Inv : (mg : Manager) → Inv mg → Safely (on_message_in fl at mg) Inv
  on_message_in-Inv mg v = take_from mg.chamber.room.recv_queue.buffer mg refl v
