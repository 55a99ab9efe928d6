-- ===== src/Conn/Order.antt =====
-- What the loop of handleWSClientSend writes, and in which order.
use vchamber.Prelude.{
  ◌≡◌, refl, ap, true, Bool-cases, inl, inr, List, [], ◌∷◌, ◌++◌, All, recv, int_eq, int_eq_iff, ok,
  if◌then◌else◌, arith, length, ◌+◌,
}
use vchamber.Wire.{FloatOps, Time, Message, Payload, pong, message_type_pong}
use vchamber.Playback.{since}
use vchamber.Codec.Types.{IsTyped}
use vchamber.Conn.{
  ClientConn, on_queue, again, returned, close_frame, Frame, text_frame, stamp_pong, write_message,
  handle_send_queue, handle_ws_client_send,
}
use vchamber.Conn.Sending.{Moment, run_sender}

-- The moments of rounds that take a message and can write it.
abbrev pub sending : List Time → List Moment
sending [] = []
sending (t ∷ ts) = record { now = t; written = true; ready = on_queue } ∷ sending ts

-- A pong tells the time from its receipt to its sending.
abbrev pub timed : FloatOps → Time → Time → Payload → Payload
timed fl now got (pong p) = pong (record p { svc_time = fl.seconds (since now got) })
timed fl now got q = q

abbrev pub sent_at : FloatOps → Time → Message → Message
sent_at fl now m =
    if int_eq m.type message_type_pong
    then record m { payload = timed fl now m.received_at m.payload }
    else m

-- Each message with the time at which it is sent.
abbrev pub frames : FloatOps → List Time → List Message → List Frame
frames fl (t ∷ ts) (m ∷ ms) = text_frame (sent_at fl t m) ∷ frames fl ts ms
frames fl _ _ = []

abbrev pub waiting : List Message → ClientConn → ClientConn
waiting ms c = record c { send_queue = record c.send_queue { buffer = ms } }

module _ (fl : FloatOps) where
  stamp_pong_lem :
      (now : Time) (m : Message) → IsTyped m → stamp_pong fl now m ≡ ok (sent_at fl now m)
  unfolding stamp_pong
  stamp_pong_lem now m t = elim (Bool-cases (int_eq m.type message_type_pong)) [
    | inl e ↦
        let (p, is_pong) = t.as_pong ((int_eq_iff m.type message_type_pong).0 e) in
        rw (e, is_pong) refl
    | inr e ↦ rw e refl
  ]

  one_sent :
      (now : Time) (m : Message) (rest : List Message) (c : ClientConn)
      → c.send_queue.buffer ≡ m ∷ rest
      → IsTyped m
      → handle_ws_client_send fl now true on_queue c
        ≡ ok (again (waiting rest c, text_frame (sent_at fl now m)))
  unfolding handle_ws_client_send handle_send_queue write_message recv
  one_sent now m rest c e t = rw e (rw (stamp_pong_lem now m t) refl)

  -- First in, first out. Rounds that take a message and can write it write the messages in the order
  -- in which they wait, each pong with the time from its receipt to its round, and leave those that
  -- wait behind them; of the connection nothing else changes. This holds of well-typed messages.
  pub run_sender_in_order :
      (ts : List Time) (ms rest : List Message) (c : ClientConn)
      → length ts ≡ length ms
      → c.send_queue.buffer ≡ ms ++ rest
      → All IsTyped ms
      → run_sender fl (sending ts) c ≡ ok (again (waiting rest c, frames fl ts ms))
  unfolding run_sender
  run_sender_in_order [] [] rest c l e h = ap (λ b. ok (again (waiting b c, []))) e
  run_sender_in_order (t ∷ ts) (m ∷ ms) rest c l e (h, hs) =
      rw (one_sent t m (ms ++ rest) c e h)
        (rw (run_sender_in_order ts ms rest (waiting (ms ++ rest) c) (omega arith) refl hs) refl)
  run_sender_in_order [] (m ∷ ms) rest c l e h = absurd (omega arith)
  run_sender_in_order (t ∷ ts) [] rest c l e h = absurd (omega arith)

  closed_sent :
      (now : Time) (c : ClientConn)
      → c.send_queue.buffer ≡ []
      → c.send_queue.closed ≡ true
      → handle_ws_client_send fl now true on_queue c ≡ ok (returned (waiting [] c, close_frame))
  unfolding handle_ws_client_send handle_send_queue write_message recv
  closed_sent now c e h = rw (e, h) refl

  -- After the last message of a closed queue comes a close frame, and the end.
  pub run_sender_to_the_end :
      (ts : List Time) (ms : List Message) (c : ClientConn)
      → length ts ≡ length ms + 1
      → c.send_queue.buffer ≡ ms
      → c.send_queue.closed ≡ true
      → All IsTyped ms
      → run_sender fl (sending ts) c
        ≡ ok (returned (waiting [] c, frames fl ts ms ++ close_frame ∷ []))
  unfolding run_sender
  run_sender_to_the_end [] ms c l e h k = absurd (omega arith)
  run_sender_to_the_end (t ∷ ts) [] c l e h k = rw (closed_sent t c e h) refl
  run_sender_to_the_end (t ∷ ts) (m ∷ ms) c l e h (k, ks) =
      rw (one_sent t m ms c e k)
        (rw (run_sender_to_the_end ts ms (waiting ms c) (omega arith) refl h ks) refl)
