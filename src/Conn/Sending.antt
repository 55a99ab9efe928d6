-- ===== src/Conn/Sending.antt =====
-- The loop of handleWSClientSend, and how it ends.
use vchamber.Prelude.{
  ℕ, ◌+◌, ◌≡◌, ◌≤◌, ◌<◌, refl, Bool, true, Bool-cases, inl, inr, ◌∙◌, ap, subst, Returns-map, some,
  List, [], ◌∷◌, length, All, recv, int_eq, int_eq_iff, Outcome, ok, Returns, bind-Returns, ◌>>=◌,
  arith,
}
use vchamber.Wire.{FloatOps, Time, Message, message_type_pong}
use vchamber.Codec.Types.{IsTyped}
use vchamber.Conn.{
  ClientConn, Ready, on_queue, on_closing, Turn, again, returned, Frame, stamp_pong, assert_pong,
  write_message, handle_send_queue, handle_ws_client_send,
}
use vchamber.Conn.Authority.{state_of}
use vchamber.Conn.Typed.{AreTyped}

-- What a round meets: the time, whether its write succeeds, and the case that its select takes.
pub record Moment : Type 0 where
  pub now : Time
  pub written : Bool
  pub ready : Ready

abbrev prepend : Frame → Turn (ClientConn × List Frame) → Turn (ClientConn × List Frame)
prepend f (again (c, fs)) = again (c, f ∷ fs)
prepend f (returned (c, fs)) = returned (c, f ∷ fs)

-- The rounds after one.
send_on :
    (ClientConn → Outcome (Turn (ClientConn × List Frame)))
    → Turn (ClientConn × Frame)
    → Outcome (Turn (ClientConn × List Frame))
send_on rest (returned (c, f)) = ok (returned (c, f ∷ []))
send_on rest (again (c, f)) = do r ← rest c; ok (prepend f r)

-- Rounds of the loop, and the frames that they write.
unfoldable pub run_sender :
    FloatOps → List Moment → ClientConn → Outcome (Turn (ClientConn × List Frame))
unfolding send_on
run_sender fl [] c = ok (again (c, []))
run_sender fl (m ∷ ms) c = do
  t ← handle_ws_client_send fl m.now m.written m.ready c
  send_on (run_sender fl ms) t

-- The channels of a client that was removed from its room.
abbrev pub IsRemoved : ClientConn → Type 0
IsRemoved c = (c.closing.closed ≡ true) × (c.send_queue.closed ≡ true) × AreTyped c.send_queue

-- A round of a removed client's goroutine returns, or takes a message.
abbrev Drains : ClientConn → Turn (ClientConn × Frame) → Type 0
Drains c (returned (d, f)) = Unit
Drains c (again (d, f)) =
    IsRemoved d × (length c.send_queue.buffer ≡ length d.send_queue.buffer + 1)

module _ (fl : FloatOps) where
  stamp_pong-Returns :
      (now : Time) (m : Message) → IsTyped m → Returns (stamp_pong fl now m) (λ m'. Unit)
  unfolding stamp_pong
  stamp_pong-Returns now m t = elim (Bool-cases (int_eq m.type message_type_pong)) [
    | inl e ↦
        let (p, is_pong) = t.as_pong ((int_eq_iff m.type message_type_pong).0 e) in
        rw (e, is_pong, assert_pong) tt
    | inr e ↦ rw e tt
  ]

  write_message-Returns :
      (now : Time) (written : Bool) (m : Message) (d : ClientConn)
      → IsTyped m
      → Returns (write_message fl now written (some m) d) (λ t. (state_of t).0 ≡ d)
  unfolding write_message
  write_message-Returns now written m d t =
      bind-Returns (stamp_pong fl now m) _ (λ m'. Unit) _ (stamp_pong-Returns now m t)
        (λ m' u. elim (Bool-cases written) [ inl e ↦ rw e refl | inr e ↦ rw e refl ])

  message-Drains :
      (c : ClientConn) (m : Message) (ms : List Message)
      → c.send_queue.buffer ≡ m ∷ ms
      → IsRemoved c
      → (t : Turn (ClientConn × Frame))
      → (state_of t).0 ≡ record c { send_queue = record c.send_queue { buffer = ms } }
      → Drains c t
  message-Drains c m ms e (a, b, h) (returned (d, f)) s = tt
  message-Drains c m ms e (a, b, h) (again (d, f)) s =
      rw s ((a, b, (subst (All IsTyped) e h).1), ap length e ∙ omega arith)

  queue-Drains :
      (now : Time) (written : Bool) (ms : List Message) (c : ClientConn)
      → c.send_queue.buffer ≡ ms
      → IsRemoved c
      → Returns (handle_send_queue fl now written c) (Drains c)
  unfolding handle_send_queue recv write_message
  queue-Drains now written [] c e h = rw e (rw h.1 tt)
  queue-Drains now written (m ∷ ms) c e h =
      bind-Returns (recv c.send_queue) _ (λ r. r ≡ (some m, record c.send_queue { buffer = ms }))
        (Drains c) (rw (e, recv) refl)
        (λ r same. rw same (
          Returns-map
            (write_message fl now written (some m)
              (record c { send_queue = record c.send_queue { buffer = ms } }))
            _ (Drains c) (write_message-Returns now written m _ (subst (All IsTyped) e h.2).0)
            (message-Drains c m ms e h)))

  closing_received :
      (bs : List Bool) (c : ClientConn)
      → c.closing.buffer ≡ bs
      → IsRemoved c
      → Returns (recv c.closing) (λ r. Unit)
  unfolding recv
  closing_received [] c e h = rw e (rw h.0 tt)
  closing_received (b ∷ bs) c e h = rw e tt

  round-Drains :
      (m : Moment) (c : ClientConn)
      → IsRemoved c
      → (ready : Ready) → Returns (handle_ws_client_send fl m.now m.written ready c) (Drains c)
  unfolding handle_ws_client_send
  round-Drains m c h on_queue = queue-Drains m.now m.written c.send_queue.buffer c refl h
  round-Drains m c h on_closing =
      bind-Returns (recv c.closing) _ (λ r. Unit) (Drains c)
        (closing_received c.closing.buffer c refl h) (λ r u. tt)

-- The loop has returned, after as many frames as rounds.
abbrev pub HasReturned : ℕ → Turn (ClientConn × List Frame) → Type 0
HasReturned n (again s) = ⊥
HasReturned n (returned (c, fs)) = length fs ≤ n

prepend-HasReturned :
    (f : Frame) (n : ℕ) (r : Turn (ClientConn × List Frame))
    → HasReturned n r
    → HasReturned (n + 1) (prepend f r)
prepend-HasReturned f n (again s) h = absurd h
prepend-HasReturned f n (returned (c, fs)) h = omega arith

send_on-HasReturned :
    (rest : ClientConn → Outcome (Turn (ClientConn × List Frame))) (c : ClientConn)
    (t : Turn (ClientConn × Frame))
    → ((d : ClientConn)
        → IsRemoved d
        → length c.send_queue.buffer ≡ length d.send_queue.buffer + 1
        → Returns (rest d) (HasReturned (length d.send_queue.buffer + 1)))
    → Drains c t
    → Returns (send_on rest t) (HasReturned (length c.send_queue.buffer + 1))
unfolding send_on
send_on-HasReturned rest c (returned (d, f)) k h = omega arith
send_on-HasReturned rest c (again (d, f)) k (h, e) =
    bind-Returns (rest d) _ (HasReturned (length d.send_queue.buffer + 1)) _ (k d h e)
      (λ r l. rw e (prepend-HasReturned f (length d.send_queue.buffer + 1) r l))

-- The loop of a removed client whose waiting messages are well typed returns after one round more
-- than there are messages at the latest, whichever cases the selects take and whether or not the
-- writes succeed.
pub run_sender-HasReturned :
    (fl : FloatOps) (ms : List Moment) (c : ClientConn)
    → IsRemoved c
    → length c.send_queue.buffer < length ms
    → Returns (run_sender fl ms c) (HasReturned (length c.send_queue.buffer + 1))
unfolding run_sender
run_sender-HasReturned fl [] c h l = absurd (omega arith)
run_sender-HasReturned fl (m ∷ ms) c h l =
    bind-Returns (handle_ws_client_send fl m.now m.written m.ready c) _ (Drains c) _
      (round-Drains fl m c h m.ready)
      (λ t.
        send_on-HasReturned (run_sender fl ms) c t
          (λ d i e. run_sender-HasReturned fl ms d i (omega arith)))
