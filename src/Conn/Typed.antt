-- ===== src/Conn/Typed.antt =====
-- The goroutine of a client on well-typed messages.
use vchamber.Prelude.{
  ◌≡◌, refl, Bool, true, false, All, Option, none, some, int_eq, int_eq_iff, Chan, recv, recv-All,
  recv-Safely, offer-Safely, offer, if◌then◌else◌, ok, Safely, bind-Safely, bind_idle, if-Safely,
  ◌>>=◌,
}
use vchamber.Wire.{FloatOps, Time, Message, message_type_pong}
use vchamber.Codec.Types.{IsTyped}
use vchamber.Conn.{
  ClientConn, Ready, on_queue, on_closing, Turn, again, returned, assert_pong, stamp_pong,
  write_message, Frame, text_frame, handle_send_queue, handle_ws_client_send, leave_room,
  sender_turn,
}

-- The messages that wait are well typed.
abbrev pub AreTyped : Chan Message → Type 0
AreTyped q = All IsTyped q.buffer

-- Both goroutines and the manager find open queues with well-typed messages.
abbrev pub IsServed : ClientConn → Chan Message → Type 0
IsServed c room_queue =
    AreTyped c.recv_queue
    × AreTyped c.send_queue
    × (c.send_queue.closed ≡ false)
    × AreTyped room_queue
    × (room_queue.closed ≡ false)

abbrev pub StaysServed : Turn (ClientConn × Chan Message) → Type 0
StaysServed (again (c, q)) = IsServed c q
StaysServed (returned (c, q)) = IsServed c q

module _ (m : Message) (c : ClientConn) (q : Chan Message) (t : IsTyped m) (v : IsServed c q) where
  abbrev After : ClientConn × Chan Message → Type 0
  After (c', q') = IsServed c' q'

-- The queue stays as open as it was, with well-typed messages.
abbrev pub Sent : ClientConn → Turn (ClientConn × Frame) → Type 0
Sent c (again (c', f)) = AreTyped c'.send_queue × (c'.send_queue.closed ≡ c.send_queue.closed)
Sent c (returned (c', f)) = AreTyped c'.send_queue × (c'.send_queue.closed ≡ c.send_queue.closed)

module _ (fl : FloatOps) (now : Time) (written : Bool) (c d : ClientConn)
    (h : AreTyped d.send_queue) (same : d.send_queue.closed ≡ c.send_queue.closed) where
  stamp_pong-Safely : (m : Message) → IsTyped m → Safely (stamp_pong fl now m) (λ m'. Unit)
  unfolding stamp_pong
  stamp_pong-Safely m t =
      if-Safely (int_eq m.type message_type_pong) _ _ (λ m'. Unit)
        (λ e.
          let (p, is_pong) = t.as_pong ((int_eq_iff m.type message_type_pong).0 e) in
          rw (is_pong, assert_pong) tt)
        (λ n. tt)

  write_message-Sent :
      (o : Option Message)
      → ((m : Message) → o ≡ some m → IsTyped m)
      → Safely (write_message fl now written o d) (Sent c)
  unfolding write_message
  write_message-Sent none t = (h, same)
  write_message-Sent (some m) t =
      bind-Safely (stamp_pong fl now m) _ (λ m'. Unit) (Sent c) (stamp_pong-Safely m (t m refl))
        (λ m' u.
          if-Safely written (ok (again (d, text_frame m'))) (ok (returned (d, text_frame m')))
            (Sent c) (λ e. (h, same)) (λ e. (h, same)))

-- While the room's channel is open the deferred request does not panic.
pub leave_room-Safely :
    {A D : Type 0} (taken : Bool) (deq : Chan D) (P : Turn A → Type 0)
    → deq.closed ≡ false
    → (t : Turn A) → P t
    → Safely (leave_room taken deq t) P
unfolding leave_room
leave_room-Safely taken deq P o (again a) h = h
leave_room-Safely taken deq P o (returned a) h =
    bind-Safely (offer taken deq) _ (λ q. Unit) P (offer-Safely taken deq o) (λ q u. h)

-- It is served if the manager receives it.
pub leave_room_open :
    {A D : Type 0} (deq : Chan D) → deq.closed ≡ false → (t : Turn A) → leave_room true deq t ≡ ok t
unfolding leave_room offer
leave_room_open deq o (again a) = refl
leave_room_open deq o (returned a) = rw (o, if◌then◌else◌) refl

-- A round up to the deferred request, be the queue open or closed.
pub handle_ws_client_send-Sent :
    (fl : FloatOps) (now : Time) (written : Bool) (ready : Ready) (c : ClientConn)
    → AreTyped c.send_queue
    → Safely (handle_ws_client_send fl now written ready c) (Sent c)
unfolding handle_ws_client_send handle_send_queue
handle_ws_client_send-Sent fl now written on_queue c h =
    bind-Safely (recv c.send_queue) _
      (λ (o, q).
        AreTyped q × (q.closed ≡ c.send_queue.closed) × ((m : Message) → o ≡ some m → IsTyped m))
      (Sent c) (recv-All IsTyped c.send_queue h)
      (λ (o, q) (h', same, t).
        write_message-Sent fl now written c (record c { send_queue = q }) h' same o t)
handle_ws_client_send-Sent fl now written on_closing c h =
    bind-Safely (recv c.closing) _ (λ r. Unit) (Sent c) (recv-Safely c.closing) (λ r u. (h, refl))

-- While the room's deqClient is open, the goroutine that writes to a client does not panic on
-- well-typed messages, be the client's queue open or closed, its deferred request to be removed
-- included: a round waits, or it leaves a queue of well-typed messages that is open if it was. If
-- the manager receives the request, the round comes to what its loop comes to.
pub sender_turn-Sent :
    {D : Type 0} (fl : FloatOps) (now : Time) (written : Bool) (ready : Ready) (taken : Bool)
    (deq : Chan D) (c : ClientConn)
    → AreTyped c.send_queue
    → deq.closed ≡ false
    → Safely (sender_turn fl now written ready taken deq c) (Sent c)
      × (sender_turn fl now written ready true deq c ≡ handle_ws_client_send fl now written ready c)
unfolding sender_turn
sender_turn-Sent fl now written ready taken deq c h o = (
  bind-Safely (handle_ws_client_send fl now written ready c) _ (Sent c) (Sent c)
      (handle_ws_client_send-Sent fl now written ready c h)
      (λ t s. leave_room-Safely taken deq (Sent c) o t s),
  bind_idle (handle_ws_client_send fl now written ready c) _ (leave_room_open deq o),
)
