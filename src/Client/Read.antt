-- ===== src/Client/Read.antt =====
-- What the stream, the timer and the user do to a client: the handlers of Client.cc, and the calls on
-- a request of Request.icc. The response parser is not part of this library: `on_read` is given what
-- `parse_shift` returns for each round of its loop. The handler of `partial_event` makes no call back.
use uni_event_http.Base.{
  ℕ, suc, Bool, true, false, not, ◌&&◌, ◌||◌, Option, none, some, List, [], ◌∷◌, ◌==◌,
  if◌then◌else◌, is_some, is_empty,
}
use uni_event_http.Error.{
  ErrorCode, HttpError, nested, connect_error, timed_out, chunk_after_transfer, chunk_when_inactive,
}
use uni_event_http.Client.State.{
  Scheme, Request, Response, RedirectContext, partial_event, resets, writes, writes_final, Client,
}
use uni_event_http.Client.Request.{
  emit, drop_connection, formed, run_form, request, finish_request, cancel,
}
use uni_event_http.Client.Form.{send_from}
use uni_event_http.Client.Redirect.{Reaction, is_redirect, analyze_request}

-- `result.state`: not past the headers, in the body, done, or failed.
pub data ParseState : Type 0 where
  in_headers in_body done failed : ParseState

-- One return of `parse_shift` or `eof`; `context_left` tells whether the parser still has the request
-- whose response it reads.
pub record Parsed : Type 0 where
  pub state : ParseState
  pub error : Option ErrorCode
  pub response : Response
  pub context_left : Bool

-- `result.state >= State::done`.
abbrev pub is_done_state : ParseState → Bool
is_done_state in_headers = false
is_done_state in_body = false
is_done_state _ = true

abbrev pub is_done : ParseState → Bool
is_done done = true
is_done _ = false

abbrev pub is_in_headers : ParseState → Bool
is_in_headers in_headers = true
is_in_headers _ = false

-- A part of a body goes to the user, unless the response will not.
abbrev pub hides_part : Request → Response → Bool
hides_part r res = res.code == 100 || r.follow_redirect && is_redirect res.code

abbrev pub notify_part : Option Request → Response → Client → Client
notify_part none res c = c
notify_part (some r) res c =
    if hides_part r res then c else emit (partial_event r (some res) none) c

-- `_response = result.response`, with `_is_done`.
unfoldable pub take_response : Bool → Parsed → Client → Client
take_response whole p c = record c {
  response = some (record p.response { is_done = whole });
  has_context = p.context_left;
}

module _ (default_port : Scheme → ℕ) (on_redirect : RedirectContext → Request → Reaction) where
  abbrev pub cancel_if : ℕ → Option Request → Option ErrorCode → Client → Client
  cancel_if now queued none c = c
  cancel_if now queued (some err) c = cancel default_port now queued err c

  -- A round of the loop; the second part tells whether the loop goes on.
  unfoldable pub round : ℕ → Option Request → Parsed → Client → Client × Bool
  round now queued p c =
      let c1 = take_response (is_done_state p.state) p c in
      if not c.has_context
      then (drop_connection c, false)
      else if is_some p.error
      then (cancel_if now queued p.error c1, false)
      else if is_in_headers p.state
      then (c1, false)
      else if not (is_done p.state)
      then (notify_part c.request (record p.response { is_done = is_done_state p.state }) c1, true)
      else (analyze_request default_port on_redirect now queued c1, true)

  -- `on_read` of a buffer: the rounds of `while (buf)`.
  unfoldable pub on_read : ℕ → Option Request → List Parsed → Client → Client
  on_read now queued [] c = c
  on_read now queued (p ∷ ps) c =
      let (c', more) = round now queued p c in
      let rest = on_read now queued ps c' in if more then rest else c'

  unfoldable pub on_eof : ℕ → Option Request → Parsed → Client → Client
  on_eof now queued p c =
      let c1 = take_response true p c in
      if not (is_some c.request)
      then emit resets (record c { connected = false })
      else if is_some p.error
      then cancel_if now queued p.error c1
      else analyze_request default_port on_redirect now queued c1

  -- `on_connect` and `on_write`.
  unfoldable pub on_connect : ℕ → Option Request → Option ErrorCode → Client → Client
  on_connect now queued none c = c
  on_connect now queued (some err) c =
      if is_some c.request then cancel default_port now queued (nested connect_error err) c else c

  unfoldable pub on_write : ℕ → Option Request → Option ErrorCode → Client → Client
  on_write now queued none c = c
  on_write now queued (some err) c =
      if is_some c.request then cancel default_port now queued err c else c

  -- `timed_out`; the stream tells whether it is still connecting.
  unfoldable pub time_out : ℕ → Option Request → (connecting : Bool) → Client → Client
  time_out now queued connecting c =
      cancel default_port now queued
        (if connecting then nested connect_error timed_out else timed_out) c

module _ (default_port : Scheme → ℕ) where
  -- `form_file_complete`: the item at `form_field` was streamed.
  abbrev pub form_next : Option ℕ → Option Request → Client → Client
  form_next (some k) (some r) c =
      let f = send_from 0 (suc k) r.form in run_form f (record c { request = some (formed f r) })
  form_next _ _ c = c

  unfoldable pub form_file_complete : ℕ → Option Request → Option ErrorCode → Client → Client
  form_file_complete now queued (some err) c = finish_request default_port now queued (some err) c
  form_file_complete now queued none c = form_next c.form_field c.request c

-- `CHECK_SEND_CHUNK`.
unfoldable pub check_send_chunk : Request → Option HttpError
check_send_chunk r =
    if r.transfer_completed
    then some chunk_after_transfer
    else if not r.active
    then some chunk_when_inactive
    else none

-- `send_chunk` and `send_final_chunk` on the request `r` of the client, of `Request` and then `Client`.
abbrev pub send_checked : Option HttpError → List ℕ → Client → Client × Option HttpError
send_checked (some e) chunk c = (c, some e)
send_checked none chunk c = (if is_empty chunk then c else emit (writes chunk) c, none)

unfoldable pub send_chunk : Request → List ℕ → Client → Client × Option HttpError
send_chunk r chunk c = send_checked (check_send_chunk r) chunk c

abbrev pub send_final_checked :
    Option HttpError → Request → List ℕ → Client → Client × Option HttpError
send_final_checked (some e) r chunk c = (c, some e)
send_final_checked none r chunk c = (
  emit (writes_final chunk) (record c { request = some (record r { transfer_completed = true }) }),
  none,
)

unfoldable pub send_final_chunk : Request → List ℕ → Client → Client × Option HttpError
send_final_chunk r chunk c = send_final_checked (check_send_chunk r) r chunk c

-- What happens to a client.
pub data Delivery : Type 0 where
  asked : Request → Delivery
  canceled : ErrorCode → Delivery
  data_read : List Parsed → Delivery
  read_failed : ErrorCode → Delivery
  connect_done write_done : Option ErrorCode → Delivery
  timer_fired : (connecting : Bool) → Delivery
  end_of_file : Parsed → Delivery
  sends_chunk sends_final_chunk : List ℕ → Delivery
  file_complete : Option ErrorCode → Delivery

abbrev pub on_request : (Request → Client → Client) → Option Request → Client → Client
on_request f none c = c
on_request f (some r) c = f r c

module _ (default_port : Scheme → ℕ) (on_redirect : RedirectContext → Request → Reaction) where
  -- At the loop's time `now`, with the request that waits in the pool, if one does.
  unfoldable pub step : ℕ → Option Request → Delivery → Client → Client
  step now queued (asked r) c = (request default_port r c).0
  step now queued (canceled err) c = cancel default_port now queued err c
  step now queued (data_read ps) c = on_read default_port on_redirect now queued ps c
  step now queued (read_failed err) c = cancel default_port now queued err c
  step now queued (connect_done err) c = on_connect default_port on_redirect now queued err c
  step now queued (write_done err) c = on_write default_port on_redirect now queued err c
  step now queued (timer_fired connecting) c =
      time_out default_port on_redirect now queued connecting c
  step now queued (end_of_file p) c = on_eof default_port on_redirect now queued p c
  step now queued (sends_chunk chunk) c = on_request (λ r d. (send_chunk r chunk d).0) c.request c
  step now queued (sends_final_chunk chunk) c =
      on_request (λ r d. (send_final_chunk r chunk d).0) c.request c
  step now queued (file_complete err) c = form_file_complete default_port now queued err c

  -- A client's life: the times, the requests that wait, and what happens.
  unfoldable pub run : List (ℕ × Option Request × Delivery) → Client → Client
  run [] c = c
  run ((now, queued, d) ∷ ds) c = run ds (step now queued d c)
