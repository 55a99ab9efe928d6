-- ===== src/Handshake/Negotiating.antt =====
-- The subprotocol of a new websocket: GetWSUpgrader of server/server/wsserver.go, and what gorilla's
-- Upgrade makes of the subprotocols that a client offers.
use vchamber.Prelude.{
  ℕ, ◌≡◌, ◌≢◌, Bool, true, false, List, [], ◌∷◌, none, some, String, Outcome, ok,
}
use vchamber.Conn.{ClientState, client_state_unauthorised}
use vchamber.Rest.Creation.{has}
use vchamber.Server.{RoomRef, Hub}
use vchamber.Handshake.{
  Handshake, admitted, unsupported_subprotocol, websocket_subprotocol_magic_v1, handle_ws_client,
}
use vchamber.Handshake.Access.{
  HasRight, greeted, handle_ws_client-admits, handle_ws_client-turns_away,
}

-- websocket.Upgrader, with CheckOrigin as its answer to every request.
pub record Upgrader : Type 0 where
  pub read_buffer_size : ℕ
  pub write_buffer_size : ℕ
  pub subprotocols : List String
  pub check_origin : Bool

abbrev pub ws_read_buffer_size : ℕ
ws_read_buffer_size = 1024

abbrev pub ws_write_buffer_size : ℕ
ws_write_buffer_size = 1024

abbrev pub get_ws_upgrader : Upgrader
get_ws_upgrader = record {
  read_buffer_size = ws_read_buffer_size;
  write_buffer_size = ws_write_buffer_size;
  subprotocols = websocket_subprotocol_magic_v1 ∷ [];
  check_origin = true;
}

-- The subprotocol that an upgrade settles on, by those of the server and those of the client; it is
-- empty if there is none.
abbrev pub Negotiation : Type 0
Negotiation = List String → List String → String

-- What gorilla/websocket documents, for a server with one subprotocol.
pub record NegotiationLaws (negotiate : Negotiation) : Type 0 where
  pub offered : (p : String) (ps : List String) → has p ps ≡ true → negotiate (p ∷ []) ps ≡ p
  pub not_offered : (p : String) (ps : List String) → has p ps ≡ false → negotiate (p ∷ []) ps ≡ ""

-- A request whose upgrade succeeds.
unfoldable pub upgrade_client :
    Negotiation → List String → Hub → String → String → String → Outcome Handshake
upgrade_client negotiate offers hub roomid token cid =
    handle_ws_client hub roomid token cid (some (negotiate get_ws_upgrader.subprotocols offers))

module _ (negotiate : Negotiation) (laws : NegotiationLaws negotiate) (hub : Hub)
    (roomid token cid : String) where
  -- A request with a right in a room, whose upgrade succeeds, is let in if the client offers the
  -- subprotocol, ...
  pub upgrade_client-admits :
      (offers : List String) (r : RoomRef) (state : ClientState)
      → has websocket_subprotocol_magic_v1 offers ≡ true
      → state ≢ client_state_unauthorised
      → HasRight hub roomid token cid none r state
      → upgrade_client negotiate offers hub roomid token cid ≡ ok (admitted r (greeted cid state))
  unfolding upgrade_client
  upgrade_client-admits offers r state o n h =
      rw (laws.offered websocket_subprotocol_magic_v1 offers o)
        (handle_ws_client-admits hub roomid token cid r state n h)

  -- ... and turned away if it does not.
  upgrade_client-turns_away :
      (offers : List String) (r : RoomRef) (state : ClientState)
      → has websocket_subprotocol_magic_v1 offers ≡ false
      → state ≢ client_state_unauthorised
      → HasRight hub roomid token cid none r state
      → upgrade_client negotiate offers hub roomid token cid ≡ ok unsupported_subprotocol
  unfolding upgrade_client
  upgrade_client-turns_away offers r state o n h =
      rw (laws.not_offered websocket_subprotocol_magic_v1 offers o)
        (handle_ws_client-turns_away hub roomid token cid r state "" n h (λ e. cc))
