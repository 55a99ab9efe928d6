-- ===== src/Lib.antt =====
-- vChamber: watching one video together. A model of the Go servers under server/, with proofs.
--
-- A backend (server/server) keeps rooms. Clients come in over websockets with a key of the room:
-- the master key lets them change the room's playback state, the guest key lets them follow it. A
-- REST API makes rooms and tells which there are. In front of the backends (server/schedule) stand
-- a scheduler, which chooses the backend that makes a room and writes the choice into a registry, a
-- reverse proxy, which reads it to route websockets, and an orchestrator, which refreshes it.
--
-- How Go is modelled:
--   * An operation that may wait or panic has its result in Outcome: ok, blocked, panic. blocked says
--     that the code waits in this state; what it has done before the wait is not in the result.
--     What a broadcast that waits has sent is kept apart, in send_until.
--   * A channel is its buffer, its capacity and whether it is closed. A send to a closed channel
--     and a second close panic; a receive on a closed empty channel gives the zero value, none. What
--     arrives on an unbuffered channel is an event of a select; a send to one is `offer`, with
--     whether somebody receives it as an argument: leave_room, enter_room and end_manager are the
--     sends to deqClient, enqClient and deqRoom.
--   * A pointer is a number, and what it points to is in a store (Chamber for clients, Hub for
--     rooms); comparing two pointers is comparing the numbers. A nil pointer is none.
--   * A map is an association list without a key twice; the order of a range is that of the list,
--     one of those that Go allows.
--   * A goroutine's loop is a function for one round, given the case that its select takes and the
--     clock readings that it makes. Whatever may happen between rounds is the relation Step. In
--     System the goroutines of a client start with the hello in its queue, which the source sends
--     just after it starts them.
--   * Timers are those of modules without a go line, as go.mod is: Stop and Reset leave a value in
--     the channel. Clock readings are numbers of nanoseconds.
--   * float64 is its bit pattern, with the machine's arithmetic as a parameter; FloatLaws names
--     what the proofs rely on.
--   * Loops are structural recursion over lists and counts; no fuel is used.
--
-- Files:
--   Prelude: tests, lists, maps, integers, channels, timers and outcomes.
--   Wire: the types of server/server/protocol.go and message.go.
--   Codec: Serialise and Deserialise of server/server/message.go, over a parameter for JSON, whose laws
--     are in Codec/RoundTrip.
--   Playback: checkPosition, UpdateState, GetCurrentStateMessage of server/server/wsserver.go.
--   Conn: ClientConn; rounds of handleVChamberClient and handleWSClientSend; sender_turn is a round of
--     the latter with its deferred function.
--   Receive: rounds of handleWSClientRecv; reader_turn is one with its deferred function.
--   Client: the headless client of server/server/client.go; Client/Heartbeat is its ping, to the
--     server and back, Client/Joining its way into a room.
--   Room: NewRoom, joinClient, killClient, BroadcastState, SendState.
--   Manager: RunManager; Manager/Invariant is its invariant, Manager/Rounds the runs,
--     Manager/Stale an update that waits while a newer one is applied.
--   The modules Effects, in Room, Manager, Conn and Receive: what a round leaves as it was.
--   System: a room with its manager and the goroutines of its clients, interleaved: the relation
--     Step; System/Safety, System/Guests and System/Ghosts are what holds of its runs, System/Relay
--     is the way of an update from a master's websocket to the clients' queues.
--   Server: NewServer, joinRoom, killRoom, Run; Server/Ending is a room that ends with a client in it.
--   Handshake: handleWSClient: handle_ws_client up to the room's enqClient, serve_ws_client the whole;
--     Handshake/Negotiating is GetWSUpgrader and the choice of the subprotocol.
--   Rest: the handlers of server/server/rest.go, NewRoomWithRandomKeys, and in Rest/Routes the routes
--     of NewVChamberRestMux.
--   Backend: main of server/cmd/backend/backend.go, with the test room and its client.
--   Schedule: storage.go, revproxy.go, scheduler.go and orchestrator.go of server/schedule;
--     Schedule/Expiry is the registry over time. Elsewhere its entries do not expire.
--   Cluster: backends behind the scheduler and the reverse proxy; Cluster/Published is the way from the
--     orchestrator's publication to a room that is made and entered; Cluster/Commands is what the
--     programs under server/cmd start.
--   Tests: examples.
-- A function keeps its name, in snake case: killClient is kill_client. The branches of a select
-- have names of their own: on_client_in is `case c := <-r.enqClient`.
--
-- Not modelled: the websocket and HTTP libraries, the router, Redis, Kubernetes, the host pool and the
-- random source, which are parameters or arguments; logging; the locks, which make each round of the
-- server and each read of its rooms atomic; the JSON encoding, of which the proofs assume at most that
-- it reads what it writes of finite floats, ints of 64 bits and texts; flags and listeners;
-- assertCryptoPRNG and destroyRoom, which nothing calls; server/test.go, which is input and output;
-- and the web front end.
pub mod Prelude
pub mod Wire
pub mod Codec
pub mod Playback
pub mod Conn
pub mod Receive
pub mod Client
pub mod Room
pub mod Manager
pub mod Server
pub mod Handshake
pub mod Rest
pub mod Schedule
pub mod Cluster
pub mod System
pub mod Backend
mod Tests
