-- ===== src/Connection/Drop.antt =====
-- What becomes of the requests that a connection drops: `drop_requests`, `do_close`, and the guards
-- of ServerRequest.icc and ServerResponse.icc.
use uni_event_http.Base.{
  ℕ, ◌≡◌, refl, Bool, true, false, not, Option, none, some, List, [], ◌∷◌, ◌++◌, ◌∙◌, ap, ◌==◌,
  arith, if◌then◌else◌, update, ◌||◌,
}
use mathlib.Core.List.{append_assoc}
use uni_event_http.Error.{ErrorCode}
use uni_event_http.Connection.State.{
  ServerRequest, Event, finish_event, partial_event, error_event, drop_event, Conn, Timer, null,
  stop_timer, closed, is_active,
}
use uni_event_http.Connection.Respond.{
  response_completed, pop_and_finish, notify_dropped, drop_each, drop_requests, do_close,
}
use uni_event_http.Connection.Calls.{
  Call, respond, send_chunk, send_final_chunk, send_continue, redirect, drop, upgrade, call,
  request_respond, request_send_continue, request_redirect, request_drop, request_upgrade,
  response_send_chunk, response_send_final_chunk,
}

-- The one event, if any, that tells the user of a dropped request that it was not answered.
unfoldable pub notice : Option ErrorCode → ℕ → ServerRequest → List Event
notice err i r =
    if not r.is_done
    then (if r.partial then partial_event i err else error_event i err) ∷ []
    else if response_completed r.response
    then []
    else drop_event i err ∷ []

-- The events of dropping a queue, the newest first.
unfoldable pub dropped_events : Option ErrorCode → (ℕ → ServerRequest) → List ℕ → List Event
dropped_events err heap [] = []
dropped_events err heap (i ∷ rest) =
    dropped_events err heap rest ++ (notice err i (heap i) ++ finish_event i ∷ [])

-- The request without its connection and its hold on the server.
abbrev pub released : ServerRequest → ServerRequest
released r = record r { connection = false; server = false }

abbrev mem : ℕ → List ℕ → Bool
mem i [] = false
mem i (j ∷ rest) = j == i || mem i rest

-- The events see of a request only what releasing it leaves alone.
notice-update :
    (err : Option ErrorCode) (i j : ℕ) (heap : ℕ → ServerRequest)
    → notice err j (update heap i (released (heap i)) j) ≡ notice err j (heap j)
unfolding notice
notice-update err i j heap = ground arith

dropped_events-update :
    (err : Option ErrorCode) (i : ℕ) (heap : ℕ → ServerRequest) (q : List ℕ)
    → dropped_events err (update heap i (released (heap i))) q ≡ dropped_events err heap q
unfolding dropped_events
dropped_events-update err i heap [] = refl
dropped_events-update err i heap (j ∷ q) =
    rw (dropped_events-update err i heap q, notice-update err i j heap)

-- The connection after its queue was dropped.
unfoldable pub emptied : Option ErrorCode → List ℕ → Conn → Conn
emptied err q c = record c {
  requests = [];
  heap = λ i. if mem i q then released (c.heap i) else c.heap i;
  events = dropped_events err c.heap q ++ c.events;
}

drop_one :
    (err : Option ErrorCode) (i : ℕ) (rest : List ℕ) (c : Conn)
    → notify_dropped err i (c.heap i) (pop_and_finish (i ∷ rest) c) ≡ record c {
      requests = rest;
      heap = update c.heap i (released (c.heap i));
      events = notice err i (c.heap i) ++ finish_event i ∷ c.events;
    }
unfolding notify_dropped pop_and_finish notice
drop_one err i rest c = ground arith

dropped_heap :
    (i : ℕ) (q : List ℕ) (heap : ℕ → ServerRequest) (j : ℕ)
    → (if mem j q
        then released (update heap i (released (heap i)) j)
        else update heap i (released (heap i)) j)
      ≡ (if mem j (i ∷ q) then released (heap j) else heap j)
dropped_heap i q heap j = ground arith

emptied-cons :
    (err : Option ErrorCode) (i : ℕ) (q : List ℕ) (c : Conn)
    → emptied err q (record c {
      requests = q;
      heap = update c.heap i (released (c.heap i));
      events = notice err i (c.heap i) ++ finish_event i ∷ c.events;
    })
      ≡ emptied err (i ∷ q) c
unfolding emptied dropped_events
emptied-cons err i q c =
    λ t. record c { requests = []; heap = λ j. dropped_heap i q c.heap j t; events = events_path t }
  where
    events_path :
        dropped_events err (update c.heap i (released (c.heap i))) q
          ++ (notice err i (c.heap i) ++ finish_event i ∷ c.events)
        ≡ (dropped_events err c.heap q ++ (notice err i (c.heap i) ++ finish_event i ∷ []))
          ++ c.events
    events_path = rw (dropped_events-update err i c.heap q) (simp append_assoc)

drop_each_lem :
    (err : Option ErrorCode) (q : List ℕ) (c : Conn)
    → c.requests ≡ q
    → drop_each err q c ≡ emptied err q c
unfolding drop_each
drop_each_lem err [] c e = unfold emptied dropped_events in ground arith
drop_each_lem err (i ∷ rest) c e =
    ap (drop_each err rest) (drop_one err i rest c)
    ∙ drop_each_lem err rest _ refl
    ∙ emptied-cons err i rest c

-- Dropping the queue removes every request from it and releases each, and tells the user of each in
-- turn, first that it is finished and then, unless it was received and answered in full, of the error,
-- by the one event for its kind. Nothing else changes.
pub drop_requests_lem :
    (err : Option ErrorCode) (c : Conn) → drop_requests err c ≡ emptied err c.requests c
unfolding drop_requests
drop_requests_lem err c = drop_each_lem err c.requests c refl

-- The request that a call is made on, or on whose response it is made; `enable_partial` only sets a
-- flag of the object.
abbrev subject : Call → Option ℕ
subject (respond i s) = some i
subject (send_chunk i chunk) = some i
subject (send_final_chunk i chunk) = some i
subject (send_continue i) = some i
subject (redirect i) = some i
subject (drop i) = some i
subject (upgrade i) = some i
subject _ = none

-- A call on a request that has no connection changes nothing.
call-released :
    (k : Call) (i : ℕ) (c : Conn)
    → subject k ≡ some i
    → (c.heap i).connection ≡ false
    → call k c ≡ c
unfolding call request_respond request_send_continue request_redirect request_drop request_upgrade
    response_send_chunk response_send_final_chunk
call-released (respond j s) i c e n = ground arith
call-released _ i c e n = ground arith

stop_timer_inactive : (t : Timer) → is_active (stop_timer t) ≡ false
stop_timer_inactive null = refl
stop_timer_inactive _ = refl

-- Closing a connection at once stops its timer, its stream and its listener, takes it out of the
-- server's table and empties its queue. From then on no call on a request that it had changes anything:
-- no answer, continue, redirect, drop or upgrade, and no chunk of a response. (`enable_partial`, which
-- only sets a flag of the request, is not among these calls.)
pub do_close-hard :
    (err : Option ErrorCode) (c : Conn) (i : ℕ) (k : Call)
    → mem i c.requests ≡ true
    → subject k ≡ some i
    → let d = do_close err false c in
      (d.requests ≡ [])
      × (d.listening ≡ false)
      × (d.in_server ≡ false)
      × (d.stream ≡ closed)
      × (is_active d.idle_timer ≡ false)
      × (call k d ≡ d)
unfolding do_close emptied
do_close-hard err c i k m e =
    rw drop_requests_lem
      (refl, refl, refl, refl, stop_timer_inactive c.idle_timer, call-released k i _ e (rw m refl))
