-- ===== src/Connection/Read.antt =====
-- What the event loop delivers to a connection: `on_read` and the other handlers of
-- ServerConnection.cc. The message parser is not part of this library: `on_read` is given what
-- `parse_shift` returns for each round of its loop. The user's callbacks answer an event with any
-- calls, made on the spot.
use uni_event_http.Base.{
  ℕ, suc, Bool, true, false, not, ◌&&◌, ◌||◌, Option, none, some, List, [], ◌∷◌, ◌++◌, ltb,
  if◌then◌else◌, is_some, is_empty, length,
}
use uni_event_http.Error.{ErrorCode, http, upgrade_in_pipeline, connection_reset}
use uni_event_http.Connection.State.{
  Chunk, ServerResponse, UpgradeHeader, exact, new_server_request, Event, route_event,
  receive_event, request_event, partial_event, error_event, timer_with_requests, Conn, back?, is,
  put_request, put_response, emit, assert, stop_timer, read_ignore,
}
use uni_event_http.Connection.Respond.{respond, finish_request, close, shutdown, check_if_idle}
use uni_event_http.Connection.Calls.{Call, calls}

-- `result.state`: not past the headers, in the body, done, or failed.
pub data ParseState : Type 0 where
  in_headers in_body done failed : ParseState

-- One return of `parse_shift`, with what it has read of the message's headers so far.
pub record Parsed : Type 0 where
  pub state : ParseState
  pub error : Option ErrorCode
  pub keep_alive : Bool
  pub upgrade_header : UpgradeHeader
  pub expects_continue : Bool
  pub http_10 : Bool

-- `result.state >= State::done`.
abbrev pub is_done_state : ParseState → Bool
is_done_state in_headers = false
is_done_state in_body = false
is_done_state _ = true

abbrev pub is_done : ParseState → Bool
is_done done = true
is_done _ = false

abbrev pub is_in_headers : ParseState → Bool
is_in_headers in_headers = true
is_in_headers _ = false

abbrev pub is_exact : UpgradeHeader → Bool
is_exact exact = true
is_exact _ = false

-- `new_request`: the next object.
unfoldable pub new_request : Conn → Conn
new_request c = put_request c.next_id new_server_request (record c { next_id = suc c.next_id })

-- The parser goes on with its request, or has a new one made.
abbrev pub parsed_id : Option ℕ → ℕ → ℕ
parsed_id none next = next
parsed_id (some i) next = i

unfoldable pub start_parsing : Option ℕ → Conn → Conn
start_parsing none c = new_request c
start_parsing (some i) c = c

-- `requests.emplace_back(req)`, unless it is at the back.
unfoldable pub enqueue : ℕ → Conn → Conn
enqueue i c = if is i (back? c.requests) then c else record c { requests = c.requests ++ i ∷ [] }

-- The head of the loop: the timer, `parse_shift`, the queue and `_is_done`.
unfoldable pub take_parsed : Parsed → Conn → Conn
take_parsed p c =
    let i = parsed_id c.parsing c.next_id in
    let c1 = start_parsing c.parsing (record c { idle_timer = stop_timer c.idle_timer }) in
    put_request i
      (record (c1.heap i) {
        is_done = is_done_state p.state;
        keep_alive = p.keep_alive;
        upgrade_header = p.upgrade_header;
        expects_continue = p.expects_continue;
        http_10 = p.http_10;
      })
      (enqueue i (record c1 { parsing = if is_done_state p.state then none else some i }))

-- `page` is the body that `default_error_response` builds around the code's message; `user` is what
-- the user's callbacks call in answer to an event.
module _ (page : ℕ → Chunk) (user : Event → Conn → List Call) where
  unfoldable pub default_error_response : ℕ → ServerResponse
  default_error_response code = record {
    code = code;
    chunked = false;
    body = page code ∷ [];
    keep_alive = false;
    has_date = true;
    completed = false;
  }

  unfoldable pub dispatch : Event → Conn → Conn
  dispatch e c = calls (user e (emit e c)) (emit e c)

  -- The end of `request_error`: an answer, if the user has given none.
  unfoldable pub answer_error : ℕ → Option ServerResponse → Conn → Conn
  answer_error i none c = (respond i (default_error_response 400) c).0
  answer_error i (some s) c = put_response i (record s { keep_alive = false }) c

  unfoldable pub request_error : ℕ → Option ErrorCode → Conn → Conn
  request_error i err c =
      let e = if (c.heap i).partial then partial_event i err else error_event i err in
      let c' = dispatch e (read_ignore c) in answer_error i (c'.heap i).response c'

  -- The request for which a read error is reported.
  unfoldable pub failing_request : Option ℕ → Conn → Conn × ℕ
  failing_request none c = (enqueue c.next_id (new_request c), c.next_id)
  failing_request (some b) c =
      if (c.heap b).is_done then (enqueue c.next_id (new_request c), c.next_id) else (c, b)

  -- No data follows a read error (`read_ignore` in `request_error`), so what the parser holds is
  -- forgotten.
  unfoldable pub on_read_error : ErrorCode → Conn → Conn
  on_read_error err c =
      let c1 = record c { idle_timer = stop_timer c.idle_timer; parsing = none } in
      let (c2, i) = failing_request (back? c.requests) c1 in
      request_error i (some err) (put_request i (record (c2.heap i) { is_done = true }) c2)

  unfoldable pub route : ℕ → Conn → Conn
  route i c =
      if (c.heap i).routed
      then c
      else dispatch (route_event i)
          (put_request i (record (c.heap i) { routed = true; server = true }) c)

  unfoldable pub deliver : ℕ → ParseState → Conn → Conn
  deliver i state c =
      if (c.heap i).partial
      then dispatch (partial_event i none) c
      else if is_done state
      then dispatch (request_event i) (dispatch (receive_event i) c)
      else c

  -- The end of a round; the second part tells whether the loop goes on.
  unfoldable pub end_round : ℕ → ParseState → Conn → Conn × Bool
  end_round i state c =
      if is_done state
      then if (c.heap i).finish_on_receive
        then (finish_request c, true)
        else if c.closing || not (c.heap i).keep_alive
        then (read_ignore c, false)
        else (c, true)
      else (c, true)

  unfoldable pub round : Parsed → Conn → Conn × Bool
  round p c =
      let i = parsed_id c.parsing c.next_id in
      let c1 = take_parsed p c in
      if is_some p.error
      then (request_error i p.error c1, false)
      else if is_in_headers p.state
      then (c1, false)
      else if ltb 1 (length c1.requests) && is_exact (c1.heap i).upgrade_header
      then (read_ignore (request_error i (some (http upgrade_in_pipeline)) c1), false)
      else end_round i p.state (deliver i p.state (route i c1))

  -- `on_read` of a buffer: the rounds of `while (buf)`.
  unfoldable pub on_read : List Parsed → Conn → Conn
  on_read [] c = c
  on_read (p ∷ ps) c =
      let (c', more) = round p c in let rest = on_read ps c' in if more then rest else c'

unfoldable pub on_connection : Option ErrorCode → Conn → Conn
on_connection none c = c
on_connection (some err) c = close (some err) c

-- A write request has left the stream's queue.
unfoldable pub on_write : Option ErrorCode → Conn → Conn
on_write none c = check_if_idle c
on_write (some err) c = close (some err) c

unfoldable pub on_shutdown : Conn → Conn
on_shutdown c = record c {
  idle_timer = stop_timer c.idle_timer;
  listening = false;
  in_server = false;
}

unfoldable pub on_eof : Conn → Conn
on_eof c = shutdown (some connection_reset) c

unfoldable pub on_idle : Conn → Conn
on_idle c = close none (
    assert (is_empty c.requests) timer_with_requests
      (record c { idle_timer = stop_timer c.idle_timer }))
