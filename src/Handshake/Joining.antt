-- ===== src/Handshake/Joining.antt =====
-- From the handshake into the room.
use vchamber.Prelude.{
  ◌≡◌, refl, ◌∙◌, subst, [], ◌∷◌, ◌++◌, Option, none, some, String, lookup, ok, Returns,
  Returns-map, arith,
}
use vchamber.Wire.{FloatOps}
use vchamber.Playback.{get_current_state_message}
use vchamber.Conn.{ClientState, ClientConn}
use vchamber.Room.{ClientRef}
use vchamber.Room.Invariant.{IsFresh}
use vchamber.Manager.{Manager, Readings, on_client_in}
use vchamber.Manager.Invariant.{Inv}
use vchamber.Manager.Clients.{on_client_in_completes}
use vchamber.Server.{RoomRef, Hub}
use vchamber.Handshake.{Handshake, admitted, handle_ws_client, hello_message}
use vchamber.Handshake.Access.{Decides, let_in, greeted, handle_ws_client-Decides}

-- A client that was let in is a new one.
abbrev pub IsGreeted : String → ClientConn → Type 0
IsGreeted cid client = (state : ClientState) × (client ≡ greeted cid state)

abbrev GreetedIn : String → Handshake → Type 0
GreetedIn cid (admitted r client) = IsGreeted cid client
GreetedIn cid _ = Unit

module _ (hub : Hub) (roomid token cid : String) (upgraded : Option String) where
  decided-GreetedIn : (h : Handshake) → Decides hub roomid token cid upgraded h → GreetedIn cid h
  decided-GreetedIn _ (let_in r state n h e) = (state, refl)
  decided-GreetedIn _ _ = tt

  pub admitted-IsGreeted :
      {r : RoomRef} {client : ClientConn}
      → handle_ws_client hub roomid token cid upgraded ≡ ok (admitted r client)
      → IsGreeted cid client
  admitted-IsGreeted e = decided-GreetedIn _ (
      subst (λ o. Returns o (Decides hub roomid token cid upgraded)) e
        (handle_ws_client-Decides hub roomid token cid upgraded))

-- A client that a handshake lets in can join at once: if its ID is not in use, the room's well-
-- formed manager serves it without waiting. Its queue then holds the hello and, behind it, the
-- state of the room.
pub admitted_joins :
    (hub : Hub) (roomid token cid : String) (upgraded : Option String) (fl : FloatOps)
    (at : Readings) (mg : Manager) (c : ClientRef) {r : RoomRef} {client : ClientConn}
    → handle_ws_client hub roomid token cid upgraded ≡ ok (admitted r client)
    → mg.chamber.conns c ≡ client
    → Inv mg
    → lookup cid mg.chamber.room.clients ≡ none
    → Returns (on_client_in fl at (some c) mg) (λ mg'.
      (lookup cid mg'.chamber.room.clients ≡ some c)
      × ((mg'.chamber.conns c).send_queue.buffer
          ≡ hello_message client.state
            ∷ (get_current_state_message fl at.shown mg.chamber.room.state).1
            ∷ []))
admitted_joins hub roomid token cid upgraded fl at mg c {client = client} e same v unused =
    let (state, g) = admitted-IsGreeted hub roomid token cid upgraded e in
    let conn : mg.chamber.conns c ≡ greeted cid state = same ∙ g in
    let fresh : IsFresh c mg.chamber = record {
      new_id = rw conn unused;
      not_closing = rw conn refl;
      sendable = rw conn refl;
    } in
    Returns-map (on_client_in fl at (some c) mg)
      (λ mg'.
        Inv mg'
        × (lookup (mg.chamber.conns c).id mg'.chamber.room.clients ≡ some c)
        × ((mg'.chamber.conns c).send_queue.buffer
            ≡ (mg.chamber.conns c).send_queue.buffer
              ++ (get_current_state_message fl at.shown mg.chamber.room.state).1 ∷ []))
      _ (on_client_in_completes c mg fresh v fl at (rw conn (omega arith)))
      (λ mg' (v', bound, sent). (rw conn at bound, sent ∙ rw (conn, g) refl))
