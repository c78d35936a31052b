-- ===== src/Server/Invariant.antt =====
-- A server that is stopping gracefully still has a connection to wait for, through every operation.
use uni_event_http.Base.{
  ℕ, ◌≡◌, refl, false, Option, none, some, List, [], ◌∷◌, ◌++◌, ◌∙◌, arith, if◌then◌else◌, is_empty,
  if_elim,
}
use uni_event_http.Error.{ErrorCode, HttpError}
use uni_event_http.Connection.State.{Chunk, Conn, Event as ConnectionEvent}
use uni_event_http.Connection.Calls.{Call}
use uni_event_http.Connection.Loop.{Delivery}
use uni_event_http.Server.Config.{Config, Location, check_config, normalize}
use uni_event_http.Server.Lifecycle.{
  Server, running, stopping, insert, replace, lookup, stop_if_done, remove, stop, graceful_stop,
  stop_listening, on_establish, start_listening, listen_each, open_location, run, configure,
  configured, settle, served, serve, new_server, is_running,
}

IsWaiting : Server → Type 0
IsWaiting s = s.state ≡ stopping → is_empty s.connections ≡ false

stop_if_done-IsWaiting : (s : Server) → IsWaiting (stop_if_done s)
unfolding stop_if_done IsWaiting
stop_if_done-IsWaiting s = ground arith

remove-IsWaiting : (i : ℕ) (c : Conn) (s : Server) → IsWaiting s → IsWaiting (remove i c s)
unfolding remove IsWaiting stop_if_done
remove-IsWaiting i c s w = ground arith

stop-IsWaiting : (s : Server) → IsWaiting s → IsWaiting (stop s)
unfolding stop IsWaiting
stop-IsWaiting s w = ground arith

graceful_stop-IsWaiting : (s : Server) → IsWaiting s → IsWaiting (graceful_stop s)
unfolding graceful_stop IsWaiting stop_if_done
graceful_stop-IsWaiting s w = ground arith

insert-nonempty : (i : ℕ) (c : Conn) (m : List (ℕ × Conn)) → is_empty (insert i c m) ≡ false
unfolding insert
insert-nonempty i c [] = refl
insert-nonempty i c ((j, d) ∷ m) = ground arith

replace-nonempty : (i : ℕ) (c : Conn) (m : List (ℕ × Conn)) → is_empty (replace i c m) ≡ is_empty m
unfolding replace
replace-nonempty i c [] = refl
replace-nonempty i c ((j, d) ∷ m) = ground arith

on_establish-IsWaiting :
    (err : Option ErrorCode) (s : Server) → IsWaiting s → IsWaiting (on_establish err s)
unfolding on_establish IsWaiting
on_establish-IsWaiting none s w = λ _. insert-nonempty _ _ s.connections
on_establish-IsWaiting (some err) s w = w

-- What can happen to a server; `remove` comes with the events of its connections.
pub data Operation : Type 0 where
  runs stops stops_gracefully listens listens_not : Operation
  configures : Config → Operation
  establishes : Option ErrorCode → Operation
  serves : ℕ → Delivery → Operation

-- The server in `configure` before it listens again.
abbrev reconfigured : Config → Server → Server
reconfigured c s = record (if is_running s.state then stop_listening s else s) {
  conf = normalize c;
}

reconfigured-IsWaiting : (c : Config) (s : Server) → IsWaiting s → IsWaiting (reconfigured c s)
unfolding IsWaiting stop_listening
reconfigured-IsWaiting c s w = ground arith

-- Opening listeners leaves the state and the connections alone.
listen_each-connections :
    (bind : Location → Option HttpError) (ls : List Location) (s : Server)
    → ((listen_each bind ls s).0.connections ≡ s.connections)
      × ((listen_each bind ls s).0.state ≡ s.state)
unfolding listen_each
listen_each-connections bind [] s = (refl, refl)
listen_each-connections bind (l ∷ ls) s =
    let ih =
      listen_each-connections bind ls
        (record s { listeners = s.listeners ++ open_location bind l ∷ [] }) in
    ground (arith, ih)

module _ (bind : Location → Option HttpError) (page : ℕ → Chunk)
    (user : ConnectionEvent → Conn → List Call) where
  start_listening-IsWaiting : (s : Server) → IsWaiting s → IsWaiting (start_listening bind s).0
  unfolding start_listening IsWaiting
  start_listening-IsWaiting s w = ground (arith, listen_each-connections bind s.conf.locations s)

  run-IsWaiting : (s : Server) → IsWaiting s → IsWaiting (run bind s).0
  unfolding run IsWaiting start_listening
  run-IsWaiting s w =
      ground (arith, listen_each-connections bind s.conf.locations (record s { state = running }))

  configure-IsWaiting : (c : Config) (s : Server) → IsWaiting s → IsWaiting (configure bind c s).0
  unfolding configure
  configure-IsWaiting c s w = by_check (check_config c)
    where
      by_check : (e : Option HttpError) → IsWaiting (configured bind c s e).0
      by_check (some e) = w
      by_check none =
          if_elim (λ (r : Server × Option HttpError). IsWaiting r.0) (is_running s.state) _ _
            (λ _. start_listening-IsWaiting (reconfigured c s) (reconfigured-IsWaiting c s w))
            (λ _. reconfigured-IsWaiting c s w)

  settle-IsWaiting :
      (i : ℕ) (c : Conn) (s : Server) → IsWaiting s → IsWaiting (settle page user i c s)
  unfolding settle
  settle-IsWaiting i c s w =
      if_elim IsWaiting c.in_server _ _
        (λ _. unfold IsWaiting in λ e. replace-nonempty i c s.connections ∙ w e)
        (λ _. remove-IsWaiting i c s w)

  served-IsWaiting :
      (i : ℕ) (d : Delivery) (c : Option Conn) (s : Server)
      → IsWaiting s
      → IsWaiting (served page user i d c s)
  served-IsWaiting i d none s w = w
  served-IsWaiting i d (some c) s w = settle-IsWaiting i _ s w

  unfoldable pub operate : Operation → Server → Server
  operate runs s = (run bind s).0
  operate stops s = stop s
  operate stops_gracefully s = graceful_stop s
  operate listens s = (start_listening bind s).0
  operate listens_not s = stop_listening s
  operate (configures c) s = (configure bind c s).0
  operate (establishes err) s = on_establish err s
  operate (serves i d) s = serve page user i d s

  unfoldable pub operate_all : List Operation → Server → Server
  operate_all [] s = s
  operate_all (o ∷ os) s = operate_all os (operate o s)

  operate-IsWaiting : (o : Operation) (s : Server) → IsWaiting s → IsWaiting (operate o s)
  unfolding operate serve stop_listening
  operate-IsWaiting runs s w = run-IsWaiting s w
  operate-IsWaiting stops s w = stop-IsWaiting s w
  operate-IsWaiting stops_gracefully s w = graceful_stop-IsWaiting s w
  operate-IsWaiting listens s w = start_listening-IsWaiting s w
  operate-IsWaiting listens_not s w = unfold IsWaiting in w
  operate-IsWaiting (configures c) s w = configure-IsWaiting c s w
  operate-IsWaiting (establishes err) s w = on_establish-IsWaiting err s w
  operate-IsWaiting (serves i d) s w = served-IsWaiting i d (lookup i s.connections) s w

  operate_all-IsWaiting :
      (os : List Operation) (s : Server) → IsWaiting s → IsWaiting (operate_all os s)
  unfolding operate_all
  operate_all-IsWaiting [] s w = w
  operate_all-IsWaiting (o ∷ os) s w = operate_all-IsWaiting os _ (operate-IsWaiting o s w)

-- After any operations on a new server, if it is stopping, it still has a connection.
pub operate_all-new_server :
    (bind : Location → Option HttpError) (page : ℕ → Chunk)
    (user : ConnectionEvent → Conn → List Call) (conf : Config) (os : List Operation)
    → (operate_all bind page user os (new_server conf)).state ≡ stopping
    → is_empty (operate_all bind page user os (new_server conf)).connections ≡ false
unfolding new_server IsWaiting
operate_all-new_server bind page user conf os =
    operate_all-IsWaiting bind page user os (new_server conf) (λ e. cc)
