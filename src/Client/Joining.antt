-- ===== src/Client/Joining.antt =====
-- The headless client comes into a room: its Connect, and the handshake at the other end.
use vchamber.Prelude.{◌≡◌, ◌≢◌, refl, true, none, recv, List, [], ◌∷◌, String, Returns, ok, inl, ap}
use vchamber.Wire.{Float64, FloatOps, Time}
use vchamber.Codec.{Json, serialise}
use vchamber.Codec.RoundTrip.{JsonLaws, deserialise-serialise}
use vchamber.Conn.{
  ClientState, client_state_unauthorised, on_queue, text_frame, handle_send_queue,
  handle_ws_client_send,
}
use vchamber.Conn.Authority.{state_of}
use vchamber.Server.{RoomRef, Hub}
use vchamber.Handshake.{admitted, hello_message, websocket_subprotocol_magic_v1}
use vchamber.Handshake.Access.{HasRight, greeted}
use vchamber.Handshake.Negotiating.{
  Negotiation, NegotiationLaws, upgrade_client, upgrade_client-admits,
}
use vchamber.Client.{connect, connected, first_message, new_client}
use vchamber.Client.Connecting.{connect_accepts}

-- The subprotocols of the dialer that Connect makes.
abbrev pub dialer_subprotocols : List String
dialer_subprotocols = websocket_subprotocol_magic_v1 ∷ []

hello_sent :
    (fl : FloatOps) (now : Time) (cid : String) (state : ClientState)
    → Returns
        (handle_ws_client_send fl now true on_queue (greeted cid state))
        (λ u. (state_of u).1 ≡ text_frame (hello_message state))
unfolding handle_ws_client_send handle_send_queue recv
hello_sent fl now cid state = refl

module _ (negotiate : Negotiation) (spoken : NegotiationLaws negotiate)
    (IsFinite : Float64 → Type 0) (json : Json) (laws : JsonLaws IsFinite json) where
  -- The headless client gets into a room. If it has a key of a room of the server, the handshake,
  -- with the subprotocol that its dialer offers, admits it with what the key stands for; the first
  -- message that the server writes to it, if it can, is a hello; and with this Connect is done. This
  -- is so if gorilla/websocket settles on a subprotocol that both sides have, and encoding/json reads
  -- back what it writes of messages with finite floats and ints of 64 bits.
  pub headless_joins :
      (fl : FloatOps) (hub : Hub) (roomid token cid : String) (r : RoomRef) (state : ClientState)
      (sent got now : Time)
      → state ≢ client_state_unauthorised
      → HasRight hub roomid token cid none r state
      → (upgrade_client negotiate dialer_subprotocols hub roomid token cid
          ≡ ok (admitted r (greeted cid state)))
        × Returns
            (handle_ws_client_send fl sent true on_queue (greeted cid state))
            (λ u. (state_of u).1 ≡ text_frame (hello_message state))
        × (connect json got now (first_message (serialise json (hello_message state)).0)
            ≡ connected (new_client now))
  headless_joins fl hub roomid token cid r state sent got now n h = (
    upgrade_client-admits negotiate spoken hub roomid token cid dialer_subprotocols r state refl n
        h,
    hello_sent fl sent cid state,
    connect_accepts json got now (serialise json (hello_message state)).0 (
        inl (
          ap (λ d. d.1)
            (deserialise-serialise IsFinite json laws got (hello_message state) refl tt).1)),
  )
