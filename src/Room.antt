-- ===== src/Room.antt =====
-- Room of server/server/wsserver.go: its clients, masters and broadcasts.
pub mod Partial
pub mod Invariant
pub mod Kill
pub mod Delivery
pub mod Broadcast
pub mod Removed
pub mod Order
pub mod Farewell
pub mod Effects
use vchamber.Prelude.{
  ℕ, ◌≡◌, Bool, List, [], ◌∷◌, Option, none, some, String, if◌then◌else◌, ◌==◌, str_eq, GoMap,
  lookup, insert, delete, Chan, make_chan, send, close_chan, Outcome, blocked, panic, ok, ◌>>=◌,
  update,
}
use vchamber.Wire.{
  FloatOps, zero_float, one_float, Time, Message, PlaybackState, playback_status_stopped,
}
use vchamber.Playback.{Instants, get_current_state_message}
use vchamber.Conn.{ClientConn, is_master}

-- A pointer to a ClientConn.
abbrev pub ClientRef : Type 0
ClientRef = ℕ

-- The channels enqClient, deqClient and closing hold no messages; only their closing matters.
pub record Room : Type 0 where
  pub id : String
  pub clients : GoMap ClientRef
  pub masters : GoMap ClientRef
  pub recv_queue : Chan Message
  pub enq_client : Chan ClientRef
  pub deq_client : Chan ClientRef
  pub closing : Chan Bool
  pub master_key : String
  pub guest_key : String
  pub state : PlaybackState

abbrev pub room_message_queue_size : ℕ
room_message_queue_size = 256

unfoldable pub new_room : String → String → String → Time → Room
new_room id m_key g_key now = record {
  id = id;
  clients = [];
  masters = [];
  recv_queue = make_chan room_message_queue_size;
  enq_client = make_chan 0;
  deq_client = make_chan 0;
  closing = make_chan 0;
  master_key = m_key;
  guest_key = g_key;
  state = record {
    source = "";
    status = playback_status_stopped;
    position = zero_float;
    speed = one_float;
    duration = zero_float;
    last_updated = now;
  };
}

unfoldable pub check_master_key : Room → String → Bool
check_master_key r key = str_eq key r.master_key

unfoldable pub check_guest_key : Room → String → Bool
check_guest_key r key = str_eq key r.guest_key

-- A room and the store of the client connections that it points to.
pub record Chamber : Type 0 where
  pub room : Room
  pub conns : ClientRef → ClientConn

-- c.sendQueue <- m
unfoldable pub send_to :
    Message → ClientRef → (ClientRef → ClientConn) → Outcome (ClientRef → ClientConn)
send_to m c conns = do
  q ← send m (conns c).send_queue
  ok (update conns c (record (conns c) { send_queue = q }))

-- The loop of BroadcastState. Go leaves the order of the clients open; this is one order.
unfoldable pub send_all :
    Message → GoMap ClientRef → (ClientRef → ClientConn) → Outcome (ClientRef → ClientConn)
send_all m [] conns = ok conns
send_all m ((k, c) ∷ rest) conns = do conns' ← send_to m c conns; send_all m rest conns'

go_until :
    Outcome (ClientRef → ClientConn)
    → ((ClientRef → ClientConn) → ClientRef → ClientConn)
    → (ClientRef → ClientConn)
    → ClientRef
    → ClientConn
go_until (ok conns') f conns = f conns'
go_until blocked f conns = conns
go_until (panic x) f conns = conns

-- What that loop leaves when it ends, waits or panics: what it has sent before stays sent.
pub send_until : Message → GoMap ClientRef → (ClientRef → ClientConn) → ClientRef → ClientConn
unfolding go_until
send_until m [] conns = conns
send_until m ((k, c) ∷ rest) conns = go_until (send_to m c conns) (send_until m rest) conns

unfoldable pub broadcast_state : FloatOps → Instants → Chamber → Outcome Chamber
broadcast_state fl at ch = do
  let (st, m) = get_current_state_message fl at ch.room.state
  conns ← send_all m ch.room.clients ch.conns
  ok (record { room = record ch.room { state = st }; conns = conns })

pub send_found :
    Message → Option ClientRef → (ClientRef → ClientConn) → Outcome (ClientRef → ClientConn)
send_found m none conns = ok conns
send_found m (some c) conns = send_to m c conns

unfoldable pub send_state : FloatOps → Instants → String → Chamber → Outcome Chamber
unfolding send_found
send_state fl at cid ch = do
  let (st, m) = get_current_state_message fl at ch.room.state
  conns ← send_found m (lookup cid ch.room.clients) ch.conns
  ok (record { room = record ch.room { state = st }; conns = conns })

unfoldable pub join_client : Option ClientRef → Chamber → Chamber
join_client none ch = ch
join_client (some c) ch =
    let client = ch.conns c in
    record ch {
      room = record ch.room {
        clients = insert client.id c ch.room.clients;
        masters =
            (if is_master client.state
              then insert client.id c ch.room.masters
              else ch.room.masters);
      };
    }

-- close(c.closing); close(c.sendQueue)
close_client : ClientRef → (ClientRef → ClientConn) → Outcome (ClientRef → ClientConn)
close_client c conns = do
  closing ← close_chan (conns c).closing
  send_queue ← close_chan (conns c).send_queue
  ok (update conns c (record (conns c) { closing = closing; send_queue = send_queue }))

remove_client : ClientRef → Chamber → Outcome Chamber
unfolding close_client
remove_client c ch = do
  let client = ch.conns c
  conns ← close_client c ch.conns
  ok (record {
    room = record ch.room {
      clients = delete client.id ch.room.clients;
      masters = delete client.id ch.room.masters;
    };
    conns = conns;
  })

-- The pointer comparison keeps another client of the same ID.
kill_found : Option ClientRef → ClientRef → Chamber → Outcome Chamber
unfolding remove_client
kill_found none c ch = ok ch
kill_found (some found) c ch = if found == c then remove_client c ch else ok ch

unfoldable pub kill_client : Option ClientRef → Chamber → Outcome Chamber
unfolding kill_found
kill_client none ch = ok ch
kill_client (some c) ch = kill_found (lookup (ch.conns c).id ch.room.clients) c ch
