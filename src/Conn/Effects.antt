-- ===== src/Conn/Effects.antt =====
-- What the goroutines of a client do to its connection, if a round completes.
use vchamber.Prelude.{
  String, ◌≡◌, refl, Bool, [], ◌∷◌, ◌++◌, All, All-snoc, Option, none, some, int_eq, Chan, recv,
  send, Partly, bind-Partly, Partly-map, Partly_of_ok, Partly_of_Safely, recv-All, if-Partly, arith,
}
use vchamber.Wire.{FloatOps, Time, Message, message_type_ping, message_type_state_update}
use vchamber.Conn.{
  ClientConn, is_master, Ready, on_queue, on_closing, assert_ping, pong_message, stamp_pong,
  write_message, handle_message, handle_received, handle_vchamber_client, handle_send_queue,
  handle_ws_client_send,
}
use vchamber.Conn.Authority.{state_of}

-- The client is the same, and its channels are as open as they were.
abbrev pub IsSameClient : ClientConn → ClientConn → Type 0
IsSameClient c d =
    (d.id ≡ c.id)
    × (d.state ≡ c.state)
    × (d.closing ≡ c.closing)
    × (d.send_queue.closed ≡ c.send_queue.closed)

pub send_lem :
    {A : Type 0} (a : A) (ch : Chan A)
    → Partly (send a ch) (λ ch'. (ch'.closed ≡ ch.closed) × (ch'.buffer ≡ ch.buffer ++ a ∷ []))
unfolding send
send_lem a ch = ground arith

recv_lem : (ch : Chan Message) → Partly (recv ch) (λ (o, ch'). ch'.closed ≡ ch.closed)
unfolding recv
recv_lem ch = ground arith

-- A predicate that does not look at the sender of a message.
module _ (P : Message → Type 0)
    (sent_by : (m : Message) (k : String) → P m → P (record m { sender = k })) where
  -- The messages of the client and of the room are as good as they were.
  abbrev pub Handled : ClientConn → Chan Message → ClientConn × Chan Message → Type 0
  Handled c q (c', q') =
      IsSameClient c c' × (q'.closed ≡ q.closed) × All P c'.recv_queue.buffer × All P q'.buffer

  module _ (m : Message) (c : ClientConn) (q : Chan Message) (p : P m)
      (h : All P c.recv_queue.buffer) (k : All P q.buffer) where
    handle_message-Handled : Partly (handle_message m c q) (Handled c q)
    unfolding handle_message
    handle_message-Handled =
        if-Partly (int_eq m.type message_type_ping) _ _ (Handled c q)
          (λ e.
            bind-Partly (assert_ping m.payload) _ (λ x. Unit) (Handled c q)
              (Partly_of_ok (assert_ping m.payload) (λ x. Unit) (λ x e. tt))
              (λ x u.
                bind-Partly (send (pong_message (record m { sender = c.id }) x) c.send_queue) _ _
                  (Handled c q)
                  (send_lem (pong_message (record m { sender = c.id }) x) c.send_queue)
                  (λ s (o, b). ((refl, refl, refl, o), refl, h, k))))
          (λ n.
            if-Partly (int_eq m.type message_type_state_update) _ _ (Handled c q)
              (λ u.
                if-Partly (is_master c.state) _ _ (Handled c q)
                  (λ i.
                    bind-Partly (send (record m { sender = c.id }) q) _ _ (Handled c q)
                      (send_lem (record m { sender = c.id }) q)
                      (λ s (o, b). (
                        (refl, refl, refl, refl),
                        o,
                        h,
                        rw b (All-snoc P q.buffer _ k (sent_by m c.id p)),
                      )))
                  (λ i. ((refl, refl, refl, refl), refl, h, k)))
              (λ u. ((refl, refl, refl, refl), refl, h, k)))

  handle_received-Handled :
      (o : Option Message) (c : ClientConn) (q : Chan Message)
      → ((m : Message) → o ≡ some m → P m)
      → All P c.recv_queue.buffer
      → All P q.buffer
      → Partly (handle_received o c q) (λ t. Handled c q (state_of t))
  unfolding handle_received
  handle_received-Handled none c q p h k = ((refl, refl, refl, refl), refl, h, k)
  handle_received-Handled (some m) c q p h k =
      bind-Partly (handle_message m c q) _ (Handled c q) _
        (handle_message-Handled m c q (p m refl) h k) (λ s e. e)

  pub handle_vchamber_client-Handled :
      (ready : Ready) (c : ClientConn) (q : Chan Message)
      → All P c.recv_queue.buffer
      → All P q.buffer
      → Partly (handle_vchamber_client ready c q) (λ t. Handled c q (state_of t))
  unfolding handle_vchamber_client
  handle_vchamber_client-Handled on_queue c q h k =
      bind-Partly (recv c.recv_queue) _ _ _
        (Partly_of_Safely (recv c.recv_queue) _ (recv-All P c.recv_queue h))
        (λ (o, r) (h', same, p). handle_received-Handled o (record c { recv_queue = r }) q p h' k)
  handle_vchamber_client-Handled on_closing c q h k =
      bind-Partly (recv c.closing) _ (λ x. Unit) _
        (Partly_of_ok (recv c.closing) (λ x. Unit) (λ x e. tt))
        (λ x u. ((refl, refl, refl, refl), refl, h, k))

-- Only messages to be sent have gone.
abbrev pub SentFrom : ClientConn → ClientConn → Type 0
SentFrom c d = IsSameClient c d × (d.recv_queue ≡ c.recv_queue)

write_message_lem :
    (fl : FloatOps) (now : Time) (written : Bool) (o : Option Message) (c : ClientConn)
    → Partly (write_message fl now written o c) (λ t. (state_of t).0 ≡ c)
unfolding write_message
write_message_lem fl now written none c = refl
write_message_lem fl now written (some m) c =
    bind-Partly (stamp_pong fl now m) _ (λ x. Unit) _
      (Partly_of_ok (stamp_pong fl now m) (λ x. Unit) (λ x e. tt))
      (λ m' u. if-Partly written _ _ _ (λ e. refl) (λ e. refl))

pub handle_ws_client_send-SentFrom :
    (fl : FloatOps) (now : Time) (written : Bool) (ready : Ready) (c : ClientConn)
    → Partly (handle_ws_client_send fl now written ready c) (λ t. SentFrom c (state_of t).0)
unfolding handle_ws_client_send handle_send_queue
handle_ws_client_send-SentFrom fl now written on_queue c =
    bind-Partly (recv c.send_queue) _ (λ (o, q). q.closed ≡ c.send_queue.closed) _
      (recv_lem c.send_queue)
      (λ (o, q) same.
        Partly-map (write_message fl now written o (record c { send_queue = q })) _ _
          (write_message_lem fl now written o (record c { send_queue = q }))
          (λ t e. rw e ((refl, refl, refl, same), refl)))
handle_ws_client_send-SentFrom fl now written on_closing c =
    bind-Partly (recv c.closing) _ (λ x. Unit) _
      (Partly_of_ok (recv c.closing) (λ x. Unit) (λ x e. tt))
      (λ x u. ((refl, refl, refl, refl), refl))
