-- ===== src/Room/Effects.antt =====
-- What the operations of a room do to its connections, if they complete.
use vchamber.Prelude.{
  ◌≡◌, ◌≢◌, refl, ◌∙◌, ◌⊎◌, inl, inr, Option, none, some, String, lookup, delete, lookup-delete,
  sym, GoMap, [], ◌∷◌, send, close_chan, Partly, bind-Partly, Partly-map, update, arith,
}
use vchamber.Wire.{FloatOps, Message}
use vchamber.Playback.{Instants, get_current_state_message}
use vchamber.Conn.{ClientConn}
use vchamber.Room.{
  ClientRef, Chamber, send_to, send_all, send_found, send_state, broadcast_state, kill_client,
}
use vchamber.Room.Delivery.{queued}
use vchamber.Room.Kill.{closed_conn}
use vchamber.Room.Invariant.{IsOpen}

-- The goroutines of the client have not run: nothing is changed but the messages to be sent.
abbrev pub IsQuiet : ClientConn → ClientConn → Type 0
IsQuiet c d =
    (d.id ≡ c.id)
    × (d.state ≡ c.state)
    × (d.recv_queue ≡ c.recv_queue)
    × (d.closing ≡ c.closing)
    × (d.send_queue.closed ≡ c.send_queue.closed)

abbrev pub AllQuiet : (ClientRef → ClientConn) → (ClientRef → ClientConn) → Type 0
AllQuiet conns conns' = (c : ClientRef) → IsQuiet (conns c) (conns' c)

AllQuiet-trans : (f g h : ClientRef → ClientConn) → AllQuiet f g → AllQuiet g h → AllQuiet f h
AllQuiet-trans f g h p q c = ground (arith, p c, q c)

queued-AllQuiet :
    (m : Message) (c : ClientRef) (conns : ClientRef → ClientConn)
    → AllQuiet conns (update conns c (queued m (conns c)))
queued-AllQuiet m c conns d = ground arith

send_to_lem :
    (m : Message) (c : ClientRef) (conns : ClientRef → ClientConn)
    → Partly (send_to m c conns) (λ conns'. conns' ≡ update conns c (queued m (conns c)))
unfolding send_to send
send_to_lem m c conns = ground arith

send_to-AllQuiet :
    (m : Message) (c : ClientRef) (conns : ClientRef → ClientConn)
    → Partly (send_to m c conns) (AllQuiet conns)
send_to-AllQuiet m c conns =
    Partly-map (send_to m c conns) (λ conns'. conns' ≡ update conns c (queued m (conns c)))
      (AllQuiet conns) (send_to_lem m c conns) (λ conns' e. rw e (queued-AllQuiet m c conns))

send_all-AllQuiet :
    (m : Message) (cs : GoMap ClientRef) (conns : ClientRef → ClientConn)
    → Partly (send_all m cs conns) (AllQuiet conns)
unfolding send_all
send_all-AllQuiet m [] conns = λ c. (refl, refl, refl, refl, refl)
send_all-AllQuiet m ((k, c) ∷ cs) conns =
    bind-Partly (send_to m c conns) _ (AllQuiet conns) (AllQuiet conns) (send_to-AllQuiet m c conns)
      (λ conns' q.
        Partly-map (send_all m cs conns') (AllQuiet conns') (AllQuiet conns)
          (send_all-AllQuiet m cs conns') (λ conns'' r. AllQuiet-trans conns conns' conns'' q r))

send_found-AllQuiet :
    (m : Message) (o : Option ClientRef) (conns : ClientRef → ClientConn)
    → Partly (send_found m o conns) (AllQuiet conns)
unfolding send_found
send_found-AllQuiet m none conns = λ c. (refl, refl, refl, refl, refl)
send_found-AllQuiet m (some c) conns = send_to-AllQuiet m c conns

-- A message went out to some clients, with the state that is current then.
abbrev pub Told : FloatOps → Instants → Chamber → Chamber → Type 0
Told fl at ch ch' =
    (ch'.room ≡ record ch.room { state = (get_current_state_message fl at ch.room.state).0 })
    × AllQuiet ch.conns ch'.conns

module _ (fl : FloatOps) (at : Instants) (ch : Chamber) where
  pub broadcast_state-Told : Partly (broadcast_state fl at ch) (Told fl at ch)
  unfolding broadcast_state
  broadcast_state-Told =
      bind-Partly
        (send_all (get_current_state_message fl at ch.room.state).1 ch.room.clients ch.conns) _
        (AllQuiet ch.conns) (Told fl at ch)
        (send_all-AllQuiet (get_current_state_message fl at ch.room.state).1 ch.room.clients
          ch.conns)
        (λ conns q. (refl, q))

  pub send_state-Told : (k : String) → Partly (send_state fl at k ch) (Told fl at ch)
  unfolding send_state
  send_state-Told k =
      bind-Partly
        (send_found (get_current_state_message fl at ch.room.state).1 (lookup k ch.room.clients)
          ch.conns)
        _ (AllQuiet ch.conns) (Told fl at ch)
        (send_found-AllQuiet (get_current_state_message fl at ch.room.state).1
          (lookup k ch.room.clients) ch.conns)
        (λ conns q. (refl, q))

-- A removal changes nothing, or takes the client out that is registered under its ID and closes it.
abbrev pub Removes : ClientRef → Chamber → Chamber → Type 0
Removes c ch ch' =
    (ch' ≡ ch)
    ⊎ ((lookup (ch.conns c).id ch.room.clients ≡ some c)
        × (ch'.room ≡ record ch.room {
          clients = delete (ch.conns c).id ch.room.clients;
          masters = delete (ch.conns c).id ch.room.masters;
        })
        × (ch'.conns ≡ update ch.conns c (closed_conn (ch.conns c))))

pub kill_client-Removes :
    (c : ClientRef) (ch : Chamber) → Partly (kill_client (some c) ch) (Removes c ch)
unfolding kill_client close_chan
kill_client-Removes c ch = ground arith

module _ (c : ClientRef) (ch ch' : Chamber) where
  -- A removal only closes channels, ...
  pub removed_conns :
      Removes c ch ch'
      → (d : ClientRef)
      → ((ch'.conns d).id ≡ (ch.conns d).id)
        × ((ch'.conns d).state ≡ (ch.conns d).state)
        × ((ch'.conns d).recv_queue ≡ (ch.conns d).recv_queue)
  removed_conns (inl e) d = rw e (refl, refl, refl)
  removed_conns (inr (l, e, f)) d = rw f (ground arith)

  -- ... those of the client, if it is registered, ...
  pub removed-IsOpen :
      Removes c ch ch'
      → (d : ClientRef) → (lookup (ch.conns c).id ch.room.clients ≡ some c → d ≢ c)
      → IsOpen (ch.conns d)
      → IsOpen (ch'.conns d)
  removed-IsOpen (inl e) d n o = rw e o
  removed-IsOpen (inr (l, e, f)) d n o = rw f (ground (arith, n l))

  -- ... and registers nobody.
  pub removed_clients :
      (k : String) (d : ClientRef)
      → Removes c ch ch'
      → lookup k ch'.room.clients ≡ some d
      → lookup k ch.room.clients ≡ some d
  removed_clients k d (inl e) h = rw (sym e) h
  removed_clients k d (inr (l, e, f)) h =
      let h' : lookup k (delete (ch.conns c).id ch.room.clients) ≡ some d = rw e at h in
      ground (arith, lookup-delete (ch.conns c).id k ch.room.clients)

pub quiet-IsOpen : (c d : ClientConn) → IsQuiet c d → IsOpen c → IsOpen d
quiet-IsOpen c d (i, t, q, e, f) (a, b) = (rw e a, f ∙ b)
