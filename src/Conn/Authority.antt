-- ===== src/Conn/Authority.antt =====
-- What a client's goroutine may do to its room.
use vchamber.Prelude.{
  ◌≡◌, refl, ◌⊎◌, inl, inr, true, Option, none, some, List, [], ◌∷◌, ◌++◌, int_eq, Chan, recv, send,
  ok, arith,
}
use vchamber.Wire.{Message, message_type_state_update}
use vchamber.Conn.{
  ClientConn, is_master, Ready, on_queue, on_closing, Turn, again, returned, handle_message,
  handle_received, handle_vchamber_client,
}

abbrev pub state_of {ℓ} : {A : Type ℓ} → Turn A → A
state_of (again a) = a
state_of (returned a) = a

-- The room's queue is as before, or has one more message at its end: the update that this client,
-- a master, received first, with the client as its sender.
abbrev pub Forwards : ClientConn → Chan Message → Chan Message → Type 0
Forwards c q q' =
    (q' ≡ q)
    ⊎ ((m : Message) × (rest : List Message) × (is_master c.state ≡ true)
        × (c.recv_queue.buffer ≡ m ∷ rest)
        × (int_eq m.type message_type_state_update ≡ true)
        × (q'.buffer ≡ q.buffer ++ record m { sender = c.id } ∷ []))

-- What one message adds to the room's queue.
abbrev Adds : Message → ClientConn → Chan Message → Chan Message → Type 0
Adds m c q q' =
    (q' ≡ q)
    ⊎ ((is_master c.state ≡ true)
        × (int_eq m.type message_type_state_update ≡ true)
        × (q'.buffer ≡ q.buffer ++ record m { sender = c.id } ∷ []))

handle_message-Adds :
    (m : Message) (c : ClientConn) (q : Chan Message) {c' : ClientConn} {q' : Chan Message}
    → handle_message m c q ≡ ok (c', q')
    → Adds m c q q'
unfolding handle_message send
handle_message-Adds m c q h = ground arith

handle_received-Forwards :
    (o : Option Message) (c d : ClientConn) (q : Chan Message)
    {t : Turn (ClientConn × Chan Message)}
    → d.id ≡ c.id
    → d.state ≡ c.state
    → handle_received o d q ≡ ok t
    → (m : Message) → o ≡ some m
    → Adds m c q (state_of t).1
unfolding handle_received handle_message send
handle_received-Forwards none c d q i s h m e = ground arith
handle_received-Forwards (some n) c d q i s h m e = ground arith

queue_turn :
    (ms : List Message) (c : ClientConn) (q : Chan Message) {t : Turn (ClientConn × Chan Message)}
    → c.recv_queue.buffer ≡ ms
    → handle_vchamber_client on_queue c q ≡ ok t
    → Forwards c q (state_of t).1
unfolding handle_vchamber_client recv handle_received
queue_turn [] c q e h = ground arith
queue_turn (m ∷ rest) c q {t} e h = elim (received (rw (e, recv) at h)) [
  | inl same ↦ inl same
  | inr (a, b, d) ↦ inr (m, rest, a, e, b, d)
]
  where
    received :
        (handle_received
            (some m)
            (record c { recv_queue = record c.recv_queue { buffer = rest } })
            q
          ≡ ok t)
        → Adds m c q (state_of t).1
    received k =
        handle_received-Forwards (some m) c
          (record c { recv_queue = record c.recv_queue { buffer = rest } }) q refl refl k m refl

-- In no round does the goroutine of a client touch the room's queue, unless the client is a master
-- and the message that it takes is a state update: then that message goes to the end of the queue,
-- with the client's ID as its sender.
pub handle_vchamber_client-Forwards :
    (ready : Ready) (c : ClientConn) (q : Chan Message) {t : Turn (ClientConn × Chan Message)}
    → handle_vchamber_client ready c q ≡ ok t
    → Forwards c q (state_of t).1
unfolding handle_vchamber_client recv
handle_vchamber_client-Forwards on_queue c q h = queue_turn c.recv_queue.buffer c q refl h
handle_vchamber_client-Forwards on_closing c q h = ground arith
