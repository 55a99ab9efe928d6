-- ===== src/Room/Order.antt =====
-- BroadcastState ranges over a Go map, in any order.
use vchamber.Prelude.{
  ◌≡◌, ◌≢◌, refl, sym, ◌∙◌, ap, ◌⊎◌, inl, inr, Bool-cases, Option-cases, some, String, [], ◌∷◌, ◌≤◌,
  ltb, ◌==◌, length, lookup, lookup-tail, lookup-head, IsDistinct, GoMap, Outcome, ok, blocked,
  panic, ◌>>=◌, arith,
}
use mathlib.Core.Path.{fun_ext}
use vchamber.Wire.{Message, FloatOps}
use vchamber.Playback.{Instants, get_current_state_message}
use vchamber.Conn.{ClientConn}
use vchamber.Room.{ClientRef, Room, Chamber, send_all, send_until, broadcast_state}
use vchamber.Room.Invariant.{Inv}
use vchamber.Room.Partial.{OnceAtMost, send_until-OnceAtMost, send_until-send_all}
use vchamber.Room.Delivery.{
  Live, Spacious, Keyed, deliver, deliver_client, deliver_other, send_all-Returns, send_all_full,
}

-- Each of two maps has what the other has.
abbrev pub SameMap : GoMap ClientRef → GoMap ClientRef → Type 0
SameMap cs ds = (k : String) → lookup k cs ≡ lookup k ds

-- A client whose queue has no space.
abbrev HasFull : GoMap ClientRef → (ClientRef → ClientConn) → Type 0
HasFull cs conns =
    (k : String) × (c : ClientRef) × (lookup k cs ≡ some c)
    × ((conns c).send_queue.capacity ≤ length (conns c).send_queue.buffer)

space_cases :
    (cs : GoMap ClientRef) (conns : ClientRef → ClientConn)
    → IsDistinct cs
    → Spacious cs conns ⊎ HasFull cs conns
unfolding lookup
space_cases [] conns d = inl (λ k c h. cc)
space_cases ((j, c) ∷ cs) conns d = elim (space_cases cs conns d.1) [
  | inr (k, e, h, full) ↦ inr (k, e, lookup-tail j k c e cs d h, full)
  | inl space ↦
      elim (Bool-cases (ltb (length (conns c).send_queue.buffer) (conns c).send_queue.capacity)) [
        | inl fits ↦ inl (λ k e h. ground (arith, space k e))
        | inr full ↦ inr (j, c, lookup-head j c cs, ground arith)
      ]
]

module _ (m : Message) (cs ds : GoMap ClientRef) (conns : ClientRef → ClientConn)
    (same : SameMap cs ds) (p : IsDistinct cs) (q : IsDistinct ds) (keys : Keyed cs conns)
    (live : Live cs conns) where
  -- A client of the map, or none of its clients.
  client_cases :
      (c : ClientRef) → (lookup (conns c).id cs ≡ some c) ⊎ ((k : String) → lookup k cs ≢ some c)
  client_cases c = elim (Option-cases (lookup (conns c).id cs)) [
    | inl absent ↦ inr (λ k h. ground (arith, keys k c h))
    | inr (d, h) ↦ elim (Bool-cases (d == c)) [
      | inl e ↦ inl (ground arith)
      | inr e ↦ inr (λ k g. ground (arith, keys k c g))
    ]
  ]

  deliver_order : deliver m cs conns ≡ deliver m ds conns
  deliver_order = fun_ext (λ c. elim (client_cases c) [
    | inl h ↦
        deliver_client m cs conns (conns c).id c p keys h
        ∙ sym (
            deliver_client m ds conns (conns c).id c q (λ k e g. keys k e (same k ∙ g))
              (sym (same (conns c).id) ∙ h))
    | inr n ↦
        deliver_other m cs conns c p n
        ∙ sym (deliver_other m ds conns c q (λ k g. n k (same k ∙ g)))
  ])

  send_all_order : send_all m cs conns ≡ send_all m ds conns
  send_all_order = elim (space_cases cs conns p) [
    | inl space ↦
        send_all-Returns m cs conns p keys live space
        ∙ ap ok deliver_order
        ∙ sym (
            send_all-Returns m ds conns q (λ k c h. keys k c (same k ∙ h))
              (λ k c h. live k c (same k ∙ h)) (λ k c h. space k c (same k ∙ h)))
    | inr (k, c, h, full) ↦
        send_all_full m cs conns k c p keys live h full
        ∙ sym (
            send_all_full m ds conns k c q (λ k c h. keys k c (same k ∙ h))
              (λ k c h. live k c (same k ∙ h)) (sym (same k) ∙ h) full)
  ]

  -- It waits, or it ends with what it has sent.
  send_all_cases :
      (send_all m cs conns ≡ blocked) ⊎ (send_all m cs conns ≡ ok (send_until m cs conns))
  send_all_cases = elim (space_cases cs conns p) [
    | inl space ↦
        let sent = send_all-Returns m cs conns p keys live space in
        inr (sent ∙ ap ok (sym (send_until-send_all m cs conns (deliver m cs conns) sent)))
    | inr (k, c, h, full) ↦ inl (send_all_full m cs conns k c p keys live h full)
  ]

-- The connections after an operation on a room.
abbrev pub conns_after : Outcome Chamber → Outcome (ClientRef → ClientConn)
conns_after o = do ch ← o; ok ch.conns

forget_room :
    (o : Outcome (ClientRef → ClientConn)) (r : Room)
    → conns_after (do conns ← o; ok (record { room = r; conns = conns })) ≡ o
forget_room (ok conns) r = refl
forget_room blocked r = refl
forget_room (panic x) r = refl

-- The order of the range over a well-formed room's clients does not matter for a broadcast: with
-- any map that has the same clients under the same IDs, it completes for the one exactly if it
-- completes for the other, and then leaves the same connections; and it waits for a full queue in
-- the one exactly if it does in the other. Which clients have got the message when it waits depends
-- on the order; but whether it ends or waits, every connection is as it was then, or has one more
-- message; and it waits, or what it has sent is its result.
pub broadcast_order :
    (fl : FloatOps) (at : Instants) (ch : Chamber) (cs : GoMap ClientRef)
    → Inv ch
    → IsDistinct cs
    → SameMap cs ch.room.clients
    → let m = (get_current_state_message fl at ch.room.state).1 in
      (conns_after (broadcast_state fl at (record ch { room = record ch.room { clients = cs } }))
        ≡ conns_after (broadcast_state fl at ch))
      × ((c : ClientRef) → OnceAtMost m (ch.conns c) (send_until m cs ch.conns c))
      × ((conns_after (broadcast_state fl at ch) ≡ blocked)
          ⊎ (conns_after (broadcast_state fl at ch) ≡ ok (send_until m cs ch.conns)))
unfolding broadcast_state
broadcast_order fl at ch cs v d same =
    let m = (get_current_state_message fl at ch.room.state).1 in
    let keys : Keyed cs ch.conns = λ k c h. v.keyed k c (sym (same k) ∙ h) in
    let live : Live cs ch.conns = λ k c h. (v.live k c (sym (same k) ∙ h)).1 in
    let alike =
      sym (send_all_order m cs ch.room.clients ch.conns same d v.clients_distinct keys live) in
    let forget = forget_room (send_all m ch.room.clients ch.conns) _ in
    (
      forget_room (send_all m cs ch.conns) _ ∙ sym (forget ∙ alike),
      λ c. send_until-OnceAtMost m cs ch.conns c d keys live,
      elim (send_all_cases m cs ch.room.clients ch.conns same d v.clients_distinct keys live) [
        | inl stuck ↦ inl (forget ∙ alike ∙ stuck)
        | inr sent ↦ inr (forget ∙ alike ∙ sent)
      ],
    )
