-- ===== src/Server/Stop.antt =====
-- How a server stops, at once and gracefully.
use uni_event_http.Base.{
  ℕ, ◌≡◌, refl, false, not, Option, some, List, [], ◌∷◌, ap, sym, subst, arith, is_empty, if_elim,
  ◌&&◌,
}
use uni_event_http.Error.{ErrorCode, http, server_stopping}
use uni_event_http.Connection.State.{Conn, closed}
use uni_event_http.Connection.Respond
use uni_event_http.Connection.Drop.{emptied, drop_requests_lem}
use uni_event_http.Server.Lifecycle.{
  Server, initial, running, stopping, stop_event, emit, erase, stop_if_done, remove,
  close_connection, close_all, stop, stop_listening, is_running, is_stopping,
}

-- Whether a connection that was closed is left with nothing to do.
pub record IsClosed (c : Conn) : Type 0 where
  queue : c.requests ≡ []
  deaf : c.listening ≡ false
  absent : c.in_server ≡ false
  reset : c.stream ≡ closed

close-IsClosed : (err : Option ErrorCode) (c : Conn) → IsClosed (Respond.close err c)
unfolding Respond.close Respond.do_close emptied
close-IsClosed err c =
    rw drop_requests_lem (record { queue = refl; deaf = refl; absent = refl; reset = refl })

abbrev AllClosed : List (ℕ × Conn) → Type 0
AllClosed [] = Unit {0}
AllClosed ((i, c) ∷ m) = IsClosed c × AllClosed m

-- Closing every connection of a server that is not waiting for that.
record Cleared (before after : Server) : Type 0 where
  connections : after.connections ≡ []
  listeners : after.listeners ≡ before.listeners
  state : after.state ≡ before.state
  events : after.events ≡ before.events
  removed : AllClosed before.removed → AllClosed after.removed

-- The server without its first connection.
abbrev without_first : ErrorCode → ℕ → Conn → List (ℕ × Conn) → Server → Server
without_first err i c m s = record s {
  connections = m;
  removed = (i, Respond.close (some err) c) ∷ s.removed;
}

close_connection-first :
    (err : ErrorCode) (i : ℕ) (c : Conn) (m : List (ℕ × Conn)) (s : Server)
    → s.connections ≡ (i, c) ∷ m
    → (is_stopping s.state && is_empty m) ≡ false
    → close_connection err i c s ≡ without_first err i c m s
unfolding close_connection remove erase stop_if_done
close_connection-first err i c m s e h = ground arith

close_connection-last :
    (err : ErrorCode) (i : ℕ) (c : Conn) (s : Server)
    → s.connections ≡ (i, c) ∷ []
    → s.state ≡ stopping
    → close_connection err i c s
      ≡ emit stop_event (record (without_first err i c [] s) { state = initial })
unfolding close_connection remove erase stop_if_done
close_connection-last err i c s e h = ground arith

close_all-Cleared :
    (err : ErrorCode) (m : List (ℕ × Conn)) (s : Server)
    → s.connections ≡ m
    → is_stopping s.state ≡ false
    → Cleared s (close_all err m s)
unfolding close_all
close_all-Cleared err [] s e r = record {
  connections = e;
  listeners = refl;
  state = refl;
  events = refl;
  removed = λ h. h;
}
close_all-Cleared err ((i, c) ∷ m) s e r =
    subst (λ z. Cleared s (close_all err m z))
      (sym (close_connection-first err i c m s e (ground (arith, r))))
      (widen (close_all-Cleared err m (without_first err i c m s) refl r))
  where
    widen : {d : Server} → Cleared (without_first err i c m s) d → Cleared s d
    widen ih = record {
      connections = ih.connections;
      listeners = ih.listeners;
      state = ih.state;
      events = ih.events;
      removed = λ h. ih.removed (close-IsClosed (some err) c, h);
    }

abbrev Announced : Server → Server → Type 0
Announced s d = (d.connections ≡ []) × (d.state ≡ initial) × (d.events ≡ stop_event ∷ s.events)

-- The same while the server waits for its connections: the last one to go fires `stop_event`.
close_all-stopping :
    (err : ErrorCode) (i : ℕ) (c : Conn) (m : List (ℕ × Conn)) (s : Server)
    → s.connections ≡ (i, c) ∷ m
    → s.state ≡ stopping
    → Announced s (close_all err ((i, c) ∷ m) s)
unfolding close_all
close_all-stopping err i c [] s e r = rw (close_connection-last err i c s e r) (refl, refl, refl)
close_all-stopping err i c ((j, d) ∷ m) s e r =
    subst (λ z. Announced s (close_all err ((j, d) ∷ m) z))
      (sym (close_connection-first err i c ((j, d) ∷ m) s e (ground arith)))
      (close_all-stopping err j d m (without_first err i c ((j, d) ∷ m) s) refl r)

abbrev pub Stopped : Server → Server → Type 0
Stopped s d =
    (d.state ≡ initial)
    × (d.listeners ≡ [])
    × (d.connections ≡ [])
    × AllClosed d.removed
    × (d.events ≡ stop_event ∷ s.events)

-- Stopping a running server whose former connections are closed stops it from listening, leaves it
-- in its initial state with no connection, all those that it ever had closed, and fires `stop_event`
-- once.
pub stop-running : (s : Server) → s.state ≡ running → AllClosed s.removed → Stopped s (stop s)
unfolding stop stop_listening
stop-running s r h =
    if_elim (Stopped s) (not (is_running s.state) && not (is_stopping s.state)) _ _
      (λ n. absurd (ground (arith, n, r)))
      (λ _. (refl, c.listeners, c.connections, c.removed h, ap (λ es. stop_event ∷ es) c.events))
  where
    s' : Server
    s' = record s { listeners = [] }

    c : Cleared s' (close_all (http server_stopping) s.connections s')
    c = close_all-Cleared (http server_stopping) s.connections s' refl (ground (arith, r))

abbrev pub StoppedTwice : Server → Server → Type 0
StoppedTwice s d = (d.events ≡ stop_event ∷ stop_event ∷ s.events) × (d.state ≡ initial)

-- Stopping a server that is already stopping gracefully, while it still has connections, fires
-- `stop_event` twice: when the last connection goes, and again at the end of `stop`.
pub stop-stopping :
    (s : Server) → s.state ≡ stopping → is_empty s.connections ≡ false → StoppedTwice s (stop s)
unfolding stop stop_listening
stop-stopping s r h =
    if_elim (StoppedTwice s) (not (is_running s.state) && not (is_stopping s.state)) _ _
      (λ n. absurd (ground (arith, n, r))) (λ _. by_connections s.connections refl h)
  where
    s' : Server
    s' = record s { listeners = [] }

    by_connections :
        (m : List (ℕ × Conn))
        → s.connections ≡ m
        → is_empty m ≡ false
        → StoppedTwice s
            (emit stop_event (record (close_all (http server_stopping) m s') { state = initial }))
    by_connections [] e n = cc
    by_connections ((i, c) ∷ m) e n = (
      ap (λ es. stop_event ∷ es) (close_all-stopping (http server_stopping) i c m s' e r).2,
      refl,
    )
