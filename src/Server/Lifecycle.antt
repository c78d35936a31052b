-- ===== src/Server/Lifecycle.antt =====
-- The life of a server: the members of Server.h and the operations of Server.cc. What the operating
-- system does with a location is the argument `bind`; the handlers of the server's own events make no
-- call back into it.
use uni_event_http.Base.{
  ℕ, ◌+◌, Bool, true, false, not, ◌&&◌, Option, none, some, List, [], ◌∷◌, ◌++◌, ◌==◌, leb,
  if◌then◌else◌, is_empty, is_some, u64,
}
use uni_event_http.Error.{
  ErrorCode, HttpError, http, server_stopping, connection_reset, already_running, already_listening,
}
use uni_event_http.Connection.State.{Event as ConnectionEvent, Chunk, Conn, new_connection}
use uni_event_http.Connection.Respond
use uni_event_http.Connection.Calls.{Call}
use uni_event_http.Connection.Loop.{Delivery, step}
use uni_event_http.Server.Config.{Location, Config, check_config, normalize}

pub data State : Type 0 where
  initial running stopping : State

pub data Event : Type 0 where
  run_event stop_event : Event
  connect_event : ℕ → Event

-- A listening stream: of a given socket, of a path, or of a host and port.
pub data Listener : Type 0 where
  socket_listener path_listener tcp_listener : Location → Listener

-- `connections` holds the connections by their ids, in the map's order, `removed` those that were
-- taken out of it, and `events` the newest first.
pub record Server : Type 0 where
  pub conf : Config
  pub listeners : List Listener
  pub state : State
  pub connections : List (ℕ × Conn)
  pub removed : List (ℕ × Conn)
  pub last_id : ℕ
  pub events : List Event

abbrev pub is_running : State → Bool
is_running running = true
is_running _ = false

abbrev pub is_stopping : State → Bool
is_stopping stopping = true
is_stopping _ = false

abbrev is_initial : State → Bool
is_initial initial = true
is_initial _ = false

abbrev pub emit : Event → Server → Server
emit e s = record s { events = e ∷ s.events }

-- The map of connections, in the order of the ids.
unfoldable pub insert : ℕ → Conn → List (ℕ × Conn) → List (ℕ × Conn)
insert i c [] = (i, c) ∷ []
insert i c ((j, d) ∷ m) =
    if i == j then (i, c) ∷ m else if leb i j then (i, c) ∷ (j, d) ∷ m else (j, d) ∷ insert i c m

unfoldable pub erase : ℕ → List (ℕ × Conn) → List (ℕ × Conn)
erase i [] = []
erase i ((j, d) ∷ m) = if j == i then m else (j, d) ∷ erase i m

unfoldable pub lookup : ℕ → List (ℕ × Conn) → Option Conn
lookup i [] = none
lookup i ((j, d) ∷ m) = if j == i then some d else lookup i m

unfoldable pub replace : ℕ → Conn → List (ℕ × Conn) → List (ℕ × Conn)
replace i c [] = []
replace i c ((j, d) ∷ m) = if j == i then (j, c) ∷ m else (j, d) ∷ replace i c m

-- `_stop_if_done`, which `remove` and `graceful_stop` call while the server is stopping.
unfoldable pub stop_if_done : Server → Server
stop_if_done s =
    if is_empty s.connections then emit stop_event (record s { state = initial }) else s

-- `remove`: the connection `c` with the id `i` leaves the table.
unfoldable pub remove : ℕ → Conn → Server → Server
remove i c s =
    let s' = record s { connections = erase i s.connections; removed = (i, c) ∷ s.removed } in
    if is_stopping s.state then stop_if_done s' else s'

-- `close` of a connection in the table, with the call of `remove` that ends it.
unfoldable pub close_connection : ErrorCode → ℕ → Conn → Server → Server
close_connection err i c s = remove i (Respond.close (some err) c) s

-- `while (_connections.size()) _connections.begin()->second->close(err)`.
unfoldable pub close_all : ErrorCode → List (ℕ × Conn) → Server → Server
close_all err [] s = s
close_all err ((i, c) ∷ m) s = close_all err m (close_connection err i c s)

unfoldable pub stop_listening : Server → Server
stop_listening s = record s { listeners = [] }

unfoldable pub stop : Server → Server
stop s =
    if not (is_running s.state) && not (is_stopping s.state)
    then s
    else let s' = stop_listening s in
      emit stop_event
        (record (close_all (http server_stopping) s'.connections s') { state = initial })

-- The destructor.
unfoldable destroy : Server → Server
destroy s = close_all connection_reset s.connections s

unfoldable pub stop_each : List (ℕ × Conn) → List (ℕ × Conn)
stop_each [] = []
stop_each ((i, c) ∷ m) = (i, Respond.graceful_stop c) ∷ stop_each m

unfoldable pub graceful_stop : Server → Server
graceful_stop s =
    if not (is_running s.state)
    then s
    else stop_if_done
        (stop_listening (record s { state = stopping; connections = stop_each s.connections }))

-- `on_establish`: a stream was accepted.
unfoldable pub on_establish : Option ErrorCode → Server → Server
on_establish (some err) s = s
on_establish none s =
    let i = u64 (s.last_id + 1) in
    emit (connect_event i) (record s {
      last_id = i;
      connections =
          insert i (new_connection s.conf.idle_timeout s.conf.max_keepalive_requests) s.connections;
    })

unfoldable pub new_server : Config → Server
unfolding normalize
new_server conf = record {
  conf = normalize conf;
  listeners = [];
  state = initial;
  connections = [];
  removed = [];
  last_id = 0;
  events = [];
}

module _ (bind : Location → Option HttpError) where
  -- The stream that `start_listening` makes of a location.
  unfoldable pub open_location : Location → Listener
  open_location l =
      if is_some l.sock
      then socket_listener l
      else if not (is_empty l.path)
      then path_listener l
      else tcp_listener l

  -- An exception leaves the listeners that were made before it.
  unfoldable pub listen_each : List Location → Server → Server × Option HttpError
  listen_each [] s = (s, none)
  listen_each (l ∷ ls) s = elim (bind l) [
    | some e ↦ (s, some e)
    | none ↦ listen_each ls (record s { listeners = s.listeners ++ open_location l ∷ [] })
  ]

  unfoldable pub start_listening : Server → Server × Option HttpError
  start_listening s =
      if not (is_empty s.listeners)
      then (s, some already_listening)
      else listen_each s.conf.locations s

  -- The end of `run`, unless `start_listening` throws.
  abbrev announce : Server × Option HttpError → Server × Option HttpError
  announce (s, none) = (emit run_event s, none)
  announce (s, some e) = (s, some e)

  unfoldable pub run : Server → Server × Option HttpError
  run s =
      if not (is_initial s.state)
      then (s, some already_running)
      else announce (start_listening (record s { state = running }))

  abbrev pub configured : Config → Server → Option HttpError → Server × Option HttpError
  configured conf s (some e) = (s, some e)
  configured conf s none =
      let s1 = if is_running s.state then stop_listening s else s in
      let s2 = record s1 { conf = normalize conf } in
      if is_running s.state then start_listening s2 else (s2, none)

  unfoldable pub configure : Config → Server → Server × Option HttpError
  configure conf s = configured conf s (check_config conf)

-- What the event loop delivers to the connection `i`, or the user calls on it; a connection that
-- called `remove` on the way leaves the table.
module _ (page : ℕ → Chunk) (user : ConnectionEvent → Conn → List Call) where
  unfoldable pub settle : ℕ → Conn → Server → Server
  settle i c s =
      if c.in_server then record s { connections = replace i c s.connections } else remove i c s

  abbrev pub served : ℕ → Delivery → Option Conn → Server → Server
  served i d none s = s
  served i d (some c) s = settle i (step page user d c) s

  unfoldable pub serve : ℕ → Delivery → Server → Server
  serve i d s = served i d (lookup i s.connections) s
