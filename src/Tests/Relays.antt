-- ===== src/Tests/Relays.antt =====
-- From one end of a connection to the other, and a room that ends with a guest in it.
use vchamber.Prelude.{
  ◌≡◌, refl, true, none, some, List, [], ◌∷◌, lookup, insert, make_chan, Returns, String, send,
  panic, send_on_closed, arith,
}
use vchamber.Wire.{one_float, zero_float, PlaybackStateMessage, playback_status_playing}
use vchamber.Handshake.{admitted, hello_message}
use vchamber.Handshake.Negotiating.{Negotiation, NegotiationLaws, upgrade_client}
use vchamber.Rest.Creation.{has}
use vchamber.Client.{connect, connected, first_message}
use vchamber.Client.Joining.{dialer_subprotocols, headless_joins}
use vchamber.Conn.{client_state_master}
use vchamber.Prelude.{ok, if◌then◌else◌}
use vchamber.Playback.Laws.{whole_ops}
use vchamber.Codec.{serialise, zero_message, deserialise}
use vchamber.Codec.RoundTrip.{arrived}
use vchamber.Conn.{
  ClientConn, client_state_guest, on_queue, on_closing, handle_vchamber_client,
  handle_ws_client_send, text_frame,
}
use vchamber.Conn.Authority.{state_of}
use vchamber.Conn.Typed.{AreTyped}
use vchamber.Conn.Sending.{Moment, run_sender, HasReturned}
use vchamber.Receive.{frame, handle_ws_client_recv}
use vchamber.Receive.Arrival.{IsListening}
use vchamber.Room.{ClientRef, join_client, new_room}
use vchamber.Room.Delivery.{Spacious}
use vchamber.Manager.{start_manager, on_message_in, on_shutdown}
use vchamber.Client.{new_client, on_ticker, heartbeat, client_send_heartbeat}
use vchamber.Client.Heartbeat.{answer, heartbeat_answered}
use vchamber.System.Relay.{update_of, handed_over, Reads, update_relayed}
use vchamber.Server.{Hub, run_server, room_out}
use vchamber.Server.Invariant.{Inv}
use vchamber.Server.Ending.{left_by, ended_room_panics}
use vchamber.Handshake.Access.{greeted}
use vchamber.Tests.Data.{at, full_manager, full_manager-Inv, late_manager, late_manager-Inv}
use vchamber.Tests.Encodings.{AnyFloat, test_json, test_json-JsonLaws}
use vchamber.Tests.Servers.{hub, hub-Inv}

-- A connection with nothing to be sent.
abbrev free : ClientConn
free = record (greeted "g" client_state_guest) { send_queue = make_chan 32 }

free-IsListening : IsListening free
free-IsListening = record {
  not_closing = refl;
  not_closed = refl;
  nothing_waits = refl;
  queue_open = refl;
  space = omega arith;
}

heartbeat_answered_example :
    Returns (client_send_heartbeat one_float true on_ticker (new_client 0)) (λ s.
      ((state_of s).1 ≡ text_frame (heartbeat one_float))
      × Returns
          (handle_ws_client_recv test_json 5
            (frame (serialise test_json (heartbeat one_float)).0)
            free)
          (λ t. Returns (handle_vchamber_client on_queue (state_of t) (make_chan 256)) (λ u.
            Returns (handle_ws_client_send whole_ops 7 true on_queue (state_of u).0) (λ w.
              ((state_of u).1 ≡ make_chan 256)
              × ((state_of w).0.send_queue.buffer ≡ [])
              × ((state_of w).0.recv_queue.buffer ≡ [])
              × ((state_of w).1 ≡ text_frame (answer whole_ops one_float 5 7))
              × (deserialise test_json 9
                    (serialise test_json (answer whole_ops one_float 5 7)).0
                    zero_message
                  ≡ (arrived 9 (answer whole_ops one_float 5 7), none))))))
heartbeat_answered_example =
    heartbeat_answered AnyFloat test_json test_json-JsonLaws whole_ops one_float 5 7 9
      (new_client 0) free (make_chan 256) tt tt free-IsListening refl refl (omega arith)

abbrev running : PlaybackStateMessage
running = record {
  source = "film.mp4";
  status = playback_status_playing;
  position = record { bits = 10 };
  speed = record { bits = 1 };
  duration = record { bits = 5000000000 };
}

-- What the others are to see half a second later.
abbrev later_on : PlaybackStateMessage
later_on = record running { position = record { bits = 500000010 } }

master-IsListening : IsListening (full_manager.chamber.conns 0)
unfolding start_manager new_room join_client
master-IsListening = record {
  not_closing = refl;
  not_closed = refl;
  nothing_waits = refl;
  queue_open = refl;
  space = omega arith;
}

full_manager-Spacious : Spacious full_manager.chamber.room.clients full_manager.chamber.conns
unfolding start_manager new_room join_client
full_manager-Spacious k c h = ground arith

update_relayed_example :
    Returns
      (handle_ws_client_recv test_json 1500000000
        (frame (serialise test_json (update_of running zero_float)).0)
        (full_manager.chamber.conns 0))
      (λ t.
        Returns
          (handle_vchamber_client on_queue (state_of t) full_manager.chamber.room.recv_queue)
          (λ u.
            Returns
              (on_message_in whole_ops (at 2000000000) (handed_over 0 full_manager (state_of u)))
              (λ mg'.
                (k : String) (c : ClientRef)
                → lookup k full_manager.chamber.room.clients ≡ some c
                → Reads test_json later_on (full_manager.chamber.conns c) (mg'.chamber.conns c))))
unfolding start_manager new_room join_client
update_relayed_example =
    update_relayed AnyFloat test_json test_json-JsonLaws whole_ops (at 2000000000) running
      zero_float 1500000000 full_manager 0 (omega arith, tt, tt, tt) tt (omega arith, tt, tt, tt)
      refl full_manager-Inv refl master-IsListening refl (omega arith) refl full_manager-Spacious

-- The server when its room is the one that the manager runs.
abbrev late_hub : Hub
late_hub = record hub { store = λ r. late_manager.chamber.room }

late_hub-Inv : Inv late_hub
unfolding start_manager new_room join_client
late_hub-Inv = record { distinct = hub-Inv.distinct; keyed = hub-Inv.keyed; live = hub-Inv.live }

guest-AreTyped : AreTyped (late_manager.chamber.conns 1).send_queue
unfolding join_client start_manager
guest-AreTyped = (
  record {
    as_hello = λ e. (_, refl);
    as_ping = λ e. cc;
    as_pong = λ e. cc;
    as_state_broadcast = λ e. cc;
    as_state_update = λ e. cc;
  },
  tt,
)

abbrev moments : List Moment
moments =
    record { now = 1; written = true; ready = on_queue }
    ∷ record { now = 2; written = true; ready = on_closing }
    ∷ []

ended_room_panics_example : Returns (on_shutdown late_manager) (λ mg'.
    Returns (run_sender whole_ops moments (mg'.chamber.conns 1)) (HasReturned 2)
    × Returns
        (run_server (room_out (some 0)) (left_by 0 mg'.chamber.room late_hub))
        (λ t. send 1 ((state_of t).store 0).deq_client ≡ panic send_on_closed))
unfolding start_manager new_room join_client lookup insert
ended_room_panics_example =
    ended_room_panics whole_ops late_manager late_hub 0 "g" 1 moments late_manager-Inv refl refl
      guest-AreTyped (omega arith) late_hub-Inv refl refl

-- The first subprotocol of the server, if the client offers it.
abbrev negotiate : Negotiation
negotiate ps offers = elim ps [ [] ↦ "" | p ∷ rest ↦ if has p offers then p else "" ]

negotiate-NegotiationLaws : NegotiationLaws negotiate
negotiate-NegotiationLaws = record {
  offered = λ p ps e. rw e refl;
  not_offered = λ p ps e. rw e refl;
}

headless_joins_example :
    (upgrade_client negotiate dialer_subprotocols hub "room" "master key" "c"
      ≡ ok (admitted 0 (greeted "c" client_state_master)))
    × Returns
        (handle_ws_client_send whole_ops 4 true on_queue (greeted "c" client_state_master))
        (λ u. (state_of u).1 ≡ text_frame (hello_message client_state_master))
    × (connect test_json 5 6
          (first_message (serialise test_json (hello_message client_state_master)).0)
        ≡ connected (new_client 6))
unfolding lookup new_room
headless_joins_example =
    headless_joins negotiate negotiate-NegotiationLaws AnyFloat test_json test_json-JsonLaws
      whole_ops hub "room" "master key" "c" 0 client_state_master 4 5 6 (λ e. cc)
      (λ e. cc, refl, refl)
