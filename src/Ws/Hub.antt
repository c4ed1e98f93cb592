-- ===== src/Ws/Hub.antt =====
-- visuara-signaling/src/ws.rs: `handle_socket`, as what happens to the server: connections come and
-- go, messages arrive on them, and the API answers requests beside them.
use visuara.Prelude.{◌≡◌, true, false, [], Option, none, some, String, inl, inr, ◌+s◌}
use visuara.Protocol.{DeviceId, ClientMessage, error}
use visuara.State.{AppState, ConnectionId, Map, insert, remove}
use visuara.Db.{Db}
use visuara.Api.Devices.{kick_device}
use visuara.Ws.{handle_message}
use visuara.Ws.Types.{
  unauthenticated, Task, Local, WsError, said, database, hashing, closed, External, Draws, send,
}

-- The shared state, and the task of each connection.
pub record World : Type 0 where
  pub app : AppState
  pub tasks : Map Task

-- What happens: a socket opens; a text arrives that is a message, or is none; the task that writes to
-- the socket stops because a write failed; a socket ends; the API removes a device; the API leaves
-- another database (it changes nothing else of the shared state).
pub data Event : Type 0 where
  opened : ConnectionId → Event
  arrived : ConnectionId → Draws → ClientMessage → Event
  arrived_malformed : ConnectionId → String → Event
  writer_stopped : ConnectionId → Event
  ended : ConnectionId → Event
  kicked : DeviceId → String → Event
  stored : Db → Event

unfoldable pub open_socket : ConnectionId → World → World
open_socket conn_id w = record {
  app = record w.app {
    connections = insert conn_id (record { receiving = true; sent = [] }) w.app.connections;
  };
  tasks = insert conn_id (record { conn_state = unauthenticated; my_device_id = none }) w.tasks;
}

unfoldable pub error_text : External → WsError → String
error_text ext (said why) = why
error_text ext (database e) = ext.database_text e
error_text ext hashing = ext.hashing_text
error_text ext closed = ext.closed_text

-- A send whose result is dropped.
unfoldable pub try_send_error : ConnectionId → String → Local → Local
try_send_error conn_id message l = (send conn_id (error message) l).1

-- The local state after a message, the error of a failed one sent.
unfoldable pub after_message : External → ConnectionId → Draws → ClientMessage → Local → Local
after_message ext conn_id draws msg l =
    let (r, l') = handle_message ext conn_id draws msg l in
    elim r [ inl e ↦ try_send_error conn_id (error_text ext e) l' | inr done ↦ l' ]

-- The world after a task has run.
abbrev pub store : ConnectionId → World → Local → World
store conn_id w l = record { app = l.app; tasks = insert conn_id l.task w.tasks }

abbrev pub local : World → Task → Local
local w task = record { app = w.app; task = task }

unfoldable pub deliver : External → ConnectionId → Draws → ClientMessage → World → World
deliver ext conn_id draws msg w = elim (w.tasks conn_id) [
  | none ↦ w
  | some task ↦ store conn_id w (after_message ext conn_id draws msg (local w task))
]

unfoldable pub deliver_malformed : External → ConnectionId → String → World → World
deliver_malformed ext conn_id text w = elim (w.tasks conn_id) [
  | none ↦ w
  | some task ↦
      store conn_id w
        (try_send_error conn_id ("malformed message: " +s ext.malformed_text text) (local w task))
]

-- The receiver of the channel is dropped; the sender stays in `connections`.
unfoldable pub stop_writer : ConnectionId → World → World
stop_writer conn_id w = elim (w.app.connections conn_id) [
  | none ↦ w
  | some tx ↦ record w {
    app = record w.app {
      connections = insert conn_id (record tx { receiving = false }) w.app.connections;
    };
  }
]

-- What a connection that ends leaves of the shared state.
unfoldable pub leave : ConnectionId → Option DeviceId → AppState → AppState
leave conn_id none s = record s { connections = remove conn_id s.connections }
leave conn_id (some device_id) s = record s {
  connections = remove conn_id s.connections;
  device_online = remove device_id s.device_online;
  otp = remove device_id s.otp;
}

unfoldable pub end_socket : ConnectionId → World → World
end_socket conn_id w = elim (w.tasks conn_id) [
  | none ↦ w
  | some task ↦ record {
    app = leave conn_id task.my_device_id w.app;
    tasks = remove conn_id w.tasks;
  }
]

-- A new connection has a new id.
abbrev pub Fresh : Event → World → Type 0
Fresh (opened conn_id) w = w.tasks conn_id ≡ none
Fresh _ w = Unit {0}

unfoldable pub step : External → Event → World → World
step ext (opened conn_id) w = open_socket conn_id w
step ext (arrived conn_id draws msg) w = deliver ext conn_id draws msg w
step ext (arrived_malformed conn_id text) w = deliver_malformed ext conn_id text w
step ext (writer_stopped conn_id) w = stop_writer conn_id w
step ext (ended conn_id) w = end_socket conn_id w
step ext (kicked device_id message) w = record w { app = kick_device device_id message w.app }
step ext (stored db) w = record w { app = record w.app { db = db } }

-- What a run of the server comes to. A new connection's id is a fresh UUID.
pub data Reachable (ext : External) : World → Type 0 where
  start :
      (s : AppState)
      → ((c : ConnectionId) → s.connections c ≡ none)
      → ((d : DeviceId) → s.device_online d ≡ none)
      → ((d : DeviceId) → s.otp d ≡ none)
      → Reachable ext (record { app = s; tasks = λ c. none })
  next : (e : Event) (w : World) → Reachable ext w → Fresh e w → Reachable ext (step ext e w)
