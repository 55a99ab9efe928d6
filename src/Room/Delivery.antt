-- ===== src/Room/Delivery.antt =====
-- The loop of BroadcastState, over any of the room's clients.
use vchamber.Prelude.{
  ◌≡◌, ◌≢◌, refl, ◌⊎◌, inl, inr, false, Bool-cases, Option, none, some, String, str_eq, str_eq_iff,
  [], ◌∷◌, ◌++◌, ◌<◌, ◌≤◌, length, lookup, IsDistinct, lookup-tail, lookup-head, send, ok, blocked,
  Safely, bind-Safely, Safely-map, subst, sym, update, arith, GoMap,
}
use vchamber.Wire.{Message}
use vchamber.Conn.{ClientConn}
use vchamber.Room.{ClientRef, send_to, send_all, send_found}
use vchamber.Room.Invariant.{AllSame}

abbrev pub Keyed : GoMap ClientRef → (ClientRef → ClientConn) → Type 0
Keyed m conns = (k : String) (c : ClientRef) → lookup k m ≡ some c → (conns c).id ≡ k

abbrev pub Live : GoMap ClientRef → (ClientRef → ClientConn) → Type 0
Live m conns =
    (k : String) (c : ClientRef) → lookup k m ≡ some c → (conns c).send_queue.closed ≡ false

-- The connection with one more message to send.
abbrev pub queued : Message → ClientConn → ClientConn
queued m c = record c {
  send_queue = record c.send_queue { buffer = c.send_queue.buffer ++ m ∷ [] };
}

send_to-Safely :
    (m : Message) (c : ClientRef) (conns : ClientRef → ClientConn)
    → (conns c).send_queue.closed ≡ false
    → Safely (send_to m c conns) (λ conns'. conns' ≡ update conns c (queued m (conns c)))
unfolding send_to send
send_to-Safely m c conns h = ground arith

queued-AllSame :
    (m : Message) (c : ClientRef) (conns : ClientRef → ClientConn)
    → AllSame conns (update conns c (queued m (conns c)))
queued-AllSame m c conns d = ground arith

pub send_to-Returns :
    (m : Message) (c : ClientRef) (conns : ClientRef → ClientConn)
    → (conns c).send_queue.closed ≡ false
    → length (conns c).send_queue.buffer < (conns c).send_queue.capacity
    → send_to m c conns ≡ ok (update conns c (queued m (conns c)))
unfolding send_to send
send_to-Returns m c conns h k = ground arith

abbrev pub Spacious : GoMap ClientRef → (ClientRef → ClientConn) → Type 0
Spacious m conns =
    (k : String) (c : ClientRef)
    → lookup k m ≡ some c
    → length (conns c).send_queue.buffer < (conns c).send_queue.capacity

module _ (m : Message) where
  -- The store after every client of a map was sent the message.
  pub deliver : GoMap ClientRef → (ClientRef → ClientConn) → ClientRef → ClientConn
  deliver [] conns = conns
  deliver ((k, c) ∷ cs) conns = deliver cs (update conns c (queued m (conns c)))

  deliver-AllSame :
      (cs : GoMap ClientRef) (conns : ClientRef → ClientConn) → AllSame conns (deliver cs conns)
  unfolding deliver
  deliver-AllSame [] conns d = (refl, refl, refl, refl)
  deliver-AllSame ((k, c) ∷ cs) conns d =
      ground (arith, deliver-AllSame cs (update conns c (queued m (conns c))) d)

  pub Live-tail :
      (j : String) (c : ClientRef) (cs : GoMap ClientRef) (conns : ClientRef → ClientConn)
      → IsDistinct ((j, c) ∷ cs)
      → Live ((j, c) ∷ cs) conns
      → Live cs (update conns c (queued m (conns c)))
  Live-tail j c cs conns d live k e h = ground (arith, live k e (lookup-tail j k c e cs d h))

  pub Keyed-tail :
      (j : String) (c : ClientRef) (cs : GoMap ClientRef) (conns : ClientRef → ClientConn)
      → IsDistinct ((j, c) ∷ cs)
      → Keyed ((j, c) ∷ cs) conns
      → Keyed cs (update conns c (queued m (conns c)))
  Keyed-tail j c cs conns d keys k e h = ground (arith, keys k e (lookup-tail j k c e cs d h))

  pub tail_other :
      (j : String) (c : ClientRef) (cs : GoMap ClientRef) (conns : ClientRef → ClientConn)
      → IsDistinct ((j, c) ∷ cs)
      → Keyed ((j, c) ∷ cs) conns
      → (k : String) → lookup k cs ≢ some c
  tail_other j c cs conns d keys k h =
      ground (arith, keys j c (lookup-head j c cs), keys k c (lookup-tail j k c c cs d h), d.0)

  -- A broadcast never panics, and one that completes has delivered.
  pub send_all-Safely :
      (cs : GoMap ClientRef) (conns : ClientRef → ClientConn)
      → IsDistinct cs
      → Live cs conns
      → Safely (send_all m cs conns) (λ conns'. conns' ≡ deliver cs conns)
  unfolding send_all deliver
  send_all-Safely [] conns d live = refl
  send_all-Safely ((j, c) ∷ cs) conns d live =
      bind-Safely (send_to m c conns) (send_all m cs) _ _
        (send_to-Safely m c conns (live j c (lookup-head j c cs)))
        (λ conns' e. rw e (send_all-Safely cs _ d.1 (Live-tail j c cs conns d live)))

  pub send_all-AllSame :
      (cs : GoMap ClientRef) (conns : ClientRef → ClientConn)
      → IsDistinct cs
      → Live cs conns
      → Safely (send_all m cs conns) (AllSame conns)
  send_all-AllSame cs conns d live =
      Safely-map (send_all m cs conns) _ (AllSame conns) (send_all-Safely cs conns d live)
        (λ conns' e. subst (AllSame conns) (sym e) (deliver-AllSame cs conns))

  pub send_found-AllSame :
      (o : Option ClientRef) (conns : ClientRef → ClientConn)
      → ((c : ClientRef) → o ≡ some c → (conns c).send_queue.closed ≡ false)
      → Safely (send_found m o conns) (AllSame conns)
  unfolding send_found
  send_found-AllSame none conns live = λ d. (refl, refl, refl, refl)
  send_found-AllSame (some c) conns live =
      Safely-map (send_to m c conns) _ (AllSame conns) (send_to-Safely m c conns (live c refl))
        (λ conns' e. subst (AllSame conns) (sym e) (queued-AllSame m c conns))

  Spacious-tail :
      (j : String) (c : ClientRef) (cs : GoMap ClientRef) (conns : ClientRef → ClientConn)
      → IsDistinct ((j, c) ∷ cs)
      → Keyed ((j, c) ∷ cs) conns
      → Spacious ((j, c) ∷ cs) conns
      → Spacious cs (update conns c (queued m (conns c)))
  Spacious-tail j c cs conns d keys space k e h = ground (
    arith,
    space k e (lookup-tail j k c e cs d h),
    keys j c (lookup-head j c cs),
    keys k e (lookup-tail j k c e cs d h),
    d.0,
  )

  pub send_all-Returns :
      (cs : GoMap ClientRef) (conns : ClientRef → ClientConn)
      → IsDistinct cs
      → Keyed cs conns
      → Live cs conns
      → Spacious cs conns
      → send_all m cs conns ≡ ok (deliver cs conns)
  unfolding send_all deliver
  send_all-Returns [] conns d keys live space = refl
  send_all-Returns ((j, c) ∷ cs) conns d keys live space =
      rw
        (send_to-Returns m c conns (live j c (lookup-head j c cs)) (space j c (lookup-head j c cs)))
        (send_all-Returns cs _ d.1 (Keyed-tail j c cs conns d keys) (Live-tail j c cs conns d live)
          (Spacious-tail j c cs conns d keys space))

  pub deliver_other :
      (cs : GoMap ClientRef) (conns : ClientRef → ClientConn) (c : ClientRef)
      → IsDistinct cs
      → ((k : String) → lookup k cs ≢ some c)
      → deliver cs conns c ≡ conns c
  unfolding deliver
  deliver_other [] conns c d h = refl
  deliver_other ((j, e) ∷ cs) conns c d h = ground (
    arith,
    h j,
    lookup-head j e cs,
    deliver_other cs (update conns e (queued m (conns e))) c d.1
        (λ k f. h k (lookup-tail j k e c cs d f)),
  )

  pub deliver_client :
      (cs : GoMap ClientRef) (conns : ClientRef → ClientConn) (k : String) (c : ClientRef)
      → IsDistinct cs
      → Keyed cs conns
      → lookup k cs ≡ some c
      → deliver cs conns c ≡ queued m (conns c)
  unfolding deliver lookup
  deliver_client [] conns k c d keys h = ground arith
  deliver_client ((j, e) ∷ cs) conns k c d keys h = elim (Bool-cases (str_eq j k)) [
    | inl here ↦ ground (
      arith,
      deliver_other cs (update conns e (queued m (conns e))) e d.1 (tail_other j e cs conns d keys),
    )
    | inr there ↦ ground (
      arith,
      deliver_client cs (update conns e (queued m (conns e))) k c d.1
          (Keyed-tail j e cs conns d keys),
      keys j e (lookup-head j e cs),
      keys k c h,
      str_eq_iff j k,
    )
  ]

  send_to_full :
      (c : ClientRef) (conns : ClientRef → ClientConn)
      → (conns c).send_queue.closed ≡ false
      → (conns c).send_queue.capacity ≤ length (conns c).send_queue.buffer
      → send_to m c conns ≡ blocked
  unfolding send_to send
  send_to_full c conns open_queue full = ground arith

  pub send_to_cases :
      (c : ClientRef) (conns : ClientRef → ClientConn)
      → (conns c).send_queue.closed ≡ false
      → (send_to m c conns ≡ blocked)
        ⊎ (send_to m c conns ≡ ok (update conns c (queued m (conns c))))
  unfolding send_to send
  send_to_cases c conns h = ground arith

  -- One client that does not take its messages holds all of a broadcast up.
  pub send_all_full :
      (cs : GoMap ClientRef) (conns : ClientRef → ClientConn) (k : String) (c : ClientRef)
      → IsDistinct cs
      → Keyed cs conns
      → Live cs conns
      → lookup k cs ≡ some c
      → (conns c).send_queue.capacity ≤ length (conns c).send_queue.buffer
      → send_all m cs conns ≡ blocked
  unfolding send_all lookup
  send_all_full [] conns k c d keys live h full = ground arith
  send_all_full ((j, e) ∷ cs) conns k c d keys live h full = elim (Bool-cases (str_eq j k)) [
    | inl here ↦ rw (send_to_full e conns (live j e (lookup-head j e cs)) (ground arith)) refl
    | inr there ↦ elim (send_to_cases e conns (live j e (lookup-head j e cs))) [
      | inl stuck ↦ rw stuck refl
      | inr sent ↦ rw sent (
          send_all_full cs _ k c d.1 (Keyed-tail j e cs conns d keys)
            (Live-tail j e cs conns d live) (ground arith)
            (ground (arith, keys j e (lookup-head j e cs), keys k c h, str_eq_iff j k)))
    ]
  ]
