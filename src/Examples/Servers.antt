-- ===== src/Examples/Servers.antt =====
-- A server, its configuration and its Date header at work.
use uni_event_http.Base.{
  ◌⊎◌, ◌↔◌, ℕ, ◌+◌, ◌<◌, ◌≤◌, ◌≡◌, refl, true, false, Option, none, some, List, [], ◌∷◌, arith,
  is_empty,
}
use uni_event_http.Error.{HttpError}
use uni_event_http.Connection.State.{Conn, new_connection, Event as ConnectionEvent, Chunk}
use uni_event_http.Connection.Calls.{Call}
use uni_event_http.Server.Config.{
  Location, Config, config_eq, normalize, normalize_locations, config_eq↔≡,
}
use uni_event_http.Server.Date.{
  DateTime, rfc822_date, date_header_now, date_header_now_fresh, read_date, read_date-rfc822_date,
}
use uni_event_http.Server.Lifecycle.{
  Server, running, stopping, stop, new_server, run, graceful_stop, start_listening, listen_each,
  on_establish, insert, stop_each, stop_if_done, stop_listening,
}
use uni_event_http.Server.Stop.{Stopped, StoppedTwice, stop-running, stop-stopping}
use uni_event_http.Server.Invariant.{
  operate, operate_all, operate_all-new_server, runs, establishes, stops_gracefully,
}

abbrev localhost : Location
localhost = record {
  host = b'h' ∷ [];
  port = 80;
  path = [];
  reuse_port = false;
  backlog = 0;
  domain = 0;
  tcp_nodelay = false;
  ssl_ctx = none;
  sock = none;
}

abbrev settings : Config
settings = record {
  locations = localhost ∷ [];
  idle_timeout = 1000;
  max_headers_size = 16384;
  max_body_size = 1000000;
  tcp_nodelay = true;
  max_keepalive_requests = 100;
}

-- Two connections of a server that runs.
abbrev busy_server : Server
busy_server = record (new_server settings) {
  state = running;
  connections = (1, new_connection 1000 100) ∷ (2, new_connection 1000 100) ∷ [];
  last_id = 2;
}

stop-running_example : Stopped busy_server (stop busy_server)
unfolding new_server
stop-running_example = stop-running busy_server refl tt

abbrev waiting_server : Server
waiting_server = record busy_server { state = stopping }

stop-stopping_example : StoppedTwice waiting_server (stop waiting_server)
stop-stopping_example = stop-stopping waiting_server refl refl

abbrev binds : Location → Option HttpError
binds l = none

abbrev page : ℕ → Chunk
page code = b'!' ∷ []

abbrev silent : ConnectionEvent → Conn → List Call
silent e c = []

operate_all-new_server_example :
    is_empty
      (operate_all binds page silent
        (runs ∷ establishes none ∷ stops_gracefully ∷ [])
        (new_server settings)).connections
    ≡ false
unfolding operate operate_all new_server run graceful_stop start_listening listen_each on_establish
    insert stop_each stop_if_done stop_listening normalize normalize_locations
operate_all-new_server_example =
    operate_all-new_server binds page silent settings
      (runs ∷ establishes none ∷ stops_gracefully ∷ []) refl

config_eq↔≡_example : (config_eq settings settings ≡ true) ↔ (settings ≡ settings)
config_eq↔≡_example = config_eq↔≡ settings settings

date_header_now_fresh_example :
    let e = date_header_now 5000 (b'n' ∷ []) (record { time = 4000; text = b'o' ∷ [] }) in
    (e.time ≤ 5000)
    × (5000 < e.time + 1000)
    × ((e ≡ record { time = 5000; text = b'n' ∷ [] })
        ⊎ (e ≡ record { time = 4000; text = b'o' ∷ [] }))
date_header_now_fresh_example =
    date_header_now_fresh 5000 (b'n' ∷ []) (record { time = 4000; text = b'o' ∷ [] }) (omega arith)
      (omega arith)

-- Sunday, 6 November 1994, 08:49:37.
abbrev some_day : DateTime
some_day = record { wday = 0; mday = 6; mon = 10; year = 1994; hour = 8; min = 49; sec = 37 }

read_date-rfc822_date_example : read_date (rfc822_date some_day) ≡ some some_day
read_date-rfc822_date_example = read_date-rfc822_date some_day (record {
  wday = omega arith;
  mday = omega arith;
  mon = omega arith;
  year = omega arith;
  hour = omega arith;
  min = omega arith;
  sec = omega arith;
})
