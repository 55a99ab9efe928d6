-- ===== src/Client/Connecting.antt =====
-- Which servers the headless client takes, and how it ends.
use vchamber.Prelude.{
  ℕ, ◌≡◌, refl, ◌⊎◌, inl, inr, Bool, true, false, List, Option, none, some, String, if◌then◌else◌,
  recv, recv-Safely, close_chan, Safely, bind-Safely, if-Safely,
}
use vchamber.Wire.{Float64, Time, Message}
use vchamber.Conn.{Turn, again, returned, Frame, close_frame}
use vchamber.Codec.{Json, zero_message, deserialise}
use vchamber.Codec.Types.{deserialise_undecoded}
use vchamber.Client.{
  Client, connected, first_message, new_client, check_hello, connect, Beat, on_ticker, on_stop,
  finish, client_send_heartbeat,
}

-- The client is not turned away by a first message that is no hello: neither if the message decodes,
-- whatever its type, nor if it is no message at all.
pub connect_accepts :
    (json : Json) (got now : Time) (buf : List ℕ)
    → ((deserialise json got buf zero_message).1 ≡ none)
      ⊎ ((e : String) × ((json.received buf).1 ≡ some e))
    → connect json got now (first_message buf) ≡ connected (new_client now)
unfolding connect check_hello
connect_accepts json got now buf (inl e) = decoded (deserialise json got buf zero_message) e
  where
    decoded :
        (d : Message × Option String) → d.1 ≡ none → check_hello now d ≡ connected (new_client now)
    decoded (m, none) e = refl
    decoded (m, some x) e = cc
connect_accepts json got now buf (inr (e, n)) =
    rw (deserialise_undecoded json got buf zero_message e n) refl

-- The end of a heartbeat loop is told once.
abbrev pub Beats : Turn (Client × Frame) → Type 0
Beats (again (c, f)) = (c.stopped.closed ≡ false) × (c.conn_closed ≡ false)
Beats (returned (c, f)) = (c.stopped.closed ≡ true) × (c.conn_closed ≡ true)

finish-Beats : (c : Client) (f : Frame) → c.stopped.closed ≡ false → Safely (finish c f) Beats
unfolding finish close_chan
finish-Beats c f o = rw (o, if◌then◌else◌) (refl, refl)

-- A round of the heartbeat never panics, and closes the connection and `stopped` exactly if it
-- returns.
client_send_heartbeat-Beats :
    (seconds : Float64) (written : Bool) (beat : Beat) (c : Client)
    → c.stopped.closed ≡ false
    → c.conn_closed ≡ false
    → Safely (client_send_heartbeat seconds written beat c) Beats
unfolding client_send_heartbeat
client_send_heartbeat-Beats seconds written on_ticker c o k =
    if-Safely written _ _ Beats (λ e. (o, k)) (λ e. finish-Beats c _ o)
client_send_heartbeat-Beats seconds written on_stop c o k =
    bind-Safely (recv c.stop) _ (λ r. Unit) Beats (recv-Safely c.stop)
      (λ r u. finish-Beats c close_frame o)
