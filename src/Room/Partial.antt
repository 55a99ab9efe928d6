-- ===== src/Room/Partial.antt =====
-- What a broadcast has sent when it waits.
use vchamber.Prelude.{
  ◌≡◌, ◌≢◌, refl, ◌⊎◌, inl, inr, Bool-cases, some, String, [], ◌∷◌, ◌==◌, lookup, IsDistinct,
  lookup-tail, lookup-head, Outcome, ok, blocked, panic, ◌>>=◌, subst, update, arith, GoMap,
}
use vchamber.Wire.{Message}
use vchamber.Conn.{ClientConn}
use vchamber.Room.{ClientRef, send_to, send_all, send_until, go_until}
use vchamber.Room.Delivery.{Keyed, Live, queued, tail_other, Keyed-tail, Live-tail, send_to_cases}

-- As it was, or with one more message.
abbrev pub OnceAtMost : Message → ClientConn → ClientConn → Type 0
OnceAtMost m c d = (d ≡ c) ⊎ (d ≡ queued m c)

go_until-ok :
    (o : Outcome (ClientRef → ClientConn))
    (f : (ClientRef → ClientConn) → Outcome (ClientRef → ClientConn))
    (g : (ClientRef → ClientConn) → ClientRef → ClientConn) (conns conns' : ClientRef → ClientConn)
    → ((s : ClientRef → ClientConn) → f s ≡ ok conns' → g s ≡ conns')
    → (o >>= f) ≡ ok conns'
    → go_until o g conns ≡ conns'
unfolding go_until
go_until-ok (ok s) f g conns conns' k h = k s h
go_until-ok blocked f g conns conns' k h = cc
go_until-ok (panic x) f g conns conns' k h = cc

module _ (m : Message) where
  until_other :
      (cs : GoMap ClientRef) (conns : ClientRef → ClientConn) (c : ClientRef)
      → IsDistinct cs
      → Keyed cs conns
      → Live cs conns
      → ((k : String) → lookup k cs ≢ some c)
      → send_until m cs conns c ≡ conns c
  unfolding send_until
  until_other [] conns c d keys live n = refl
  until_other ((j, e) ∷ cs) conns c d keys live n =
      elim (send_to_cases m e conns (live j e (lookup-head j e cs))) [
        | inl stuck ↦ rw stuck refl
        | inr sent ↦
            rw (sent, go_until)
              (ground (
                arith,
                n j,
                lookup-head j e cs,
                until_other cs (update conns e (queued m (conns e))) c d.1
                    (Keyed-tail m j e cs conns d keys) (Live-tail m j e cs conns d live)
                    (λ k f. n k (lookup-tail j k e c cs d f)),
              ))
      ]

  -- The first client gets it once.
  first_sent :
      (j : String) (e : ClientRef) (cs : GoMap ClientRef) (conns : ClientRef → ClientConn)
      → IsDistinct ((j, e) ∷ cs)
      → Keyed ((j, e) ∷ cs) conns
      → Live ((j, e) ∷ cs) conns
      → send_until m cs (update conns e (queued m (conns e))) e ≡ queued m (conns e)
  first_sent j e cs conns d keys live = ground (
    arith,
    until_other cs (update conns e (queued m (conns e))) e d.1 (Keyed-tail m j e cs conns d keys)
        (Live-tail m j e cs conns d live) (tail_other m j e cs conns d keys),
  )

  pub send_until-OnceAtMost :
      (cs : GoMap ClientRef) (conns : ClientRef → ClientConn) (c : ClientRef)
      → IsDistinct cs
      → Keyed cs conns
      → Live cs conns
      → OnceAtMost m (conns c) (send_until m cs conns c)
  unfolding send_until
  send_until-OnceAtMost [] conns c d keys live = inl refl
  send_until-OnceAtMost ((j, e) ∷ cs) conns c d keys live =
      elim (send_to_cases m e conns (live j e (lookup-head j e cs))) [
        | inl stuck ↦ rw stuck (inl refl)
        | inr sent ↦
            rw (sent, go_until)
              (elim (Bool-cases (e == c)) [
                | inl same ↦ inr (
                    subst
                      (λ x.
                        send_until m cs (update conns e (queued m (conns e))) x
                        ≡ queued m (conns x))
                      (ground arith) (first_sent j e cs conns d keys live))
                | inr other ↦
                    subst
                      (λ x.
                        OnceAtMost m x (send_until m cs (update conns e (queued m (conns e))) c))
                      (ground arith)
                      (send_until-OnceAtMost cs (update conns e (queued m (conns e))) c d.1
                        (Keyed-tail m j e cs conns d keys) (Live-tail m j e cs conns d live))
              ])
      ]

  -- A loop that ends leaves its result.
  pub send_until-send_all :
      (cs : GoMap ClientRef) (conns conns' : ClientRef → ClientConn)
      → send_all m cs conns ≡ ok conns'
      → send_until m cs conns ≡ conns'
  unfolding send_until send_all
  send_until-send_all [] conns conns' h = cc
  send_until-send_all ((j, e) ∷ cs) conns conns' h =
      go_until-ok (send_to m e conns) (send_all m cs) (send_until m cs) conns conns'
        (λ s. send_until-send_all cs s conns') h
