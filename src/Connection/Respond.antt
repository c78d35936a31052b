-- ===== src/Connection/Respond.antt =====
-- Answering and dropping requests: ServerConnection.cc from `respond` to `upgrade`. The handlers of
-- `finish_event` and `drop_event`, and of the events of a dropped request, make no call back into
-- the connection: their calls are only recorded.
use uni_event_http.Base.{
  ℕ, ◌+◌, Bool, true, false, not, ◌&&◌, ◌||◌, Option, none, some, List, [], ◌∷◌, ◌++◌, ◌==◌, leb,
  if◌then◌else◌, is_some, is_empty, length, u64,
}
use uni_event_http.Error.{
  ErrorCode, HttpError, http, server_stopping, pipeline_canceled, double_response,
  continue_after_response, upgrade_impossible,
}
use uni_event_http.Connection.State.{
  Chunk, has_body, ServerResponse, ServerRequest, continue_100, head, body_chunk, final_chunk,
  finish_event, partial_event, error_event, drop_event, front_of_empty, null_timer, foreign_request,
  requests_left, not_completed, no_requests, shut, closed, detached, Timer, null, active, Conn,
  front?, is, put_request, put_response, emit, fail, assert, write, stop_timer, is_active,
}

unfoldable pub pop_and_finish : List ℕ → Conn → Conn
pop_and_finish [] c = fail front_of_empty c
pop_and_finish (i ∷ rest) c = emit (finish_event i) (
    put_request i (record (c.heap i) { connection = false; server = false })
      (record c { requests = rest }))

unfoldable pub cleanup_request : Conn → Conn
cleanup_request c = pop_and_finish c.requests c

-- Whether the user has answered the request in full.
abbrev pub response_completed : Option ServerResponse → Bool
response_completed none = false
response_completed (some s) = s.completed

-- What the loop of `drop_requests` tells the user of a request that it has removed.
unfoldable pub notify_dropped : Option ErrorCode → ℕ → ServerRequest → Conn → Conn
notify_dropped err i r c =
    if not r.is_done
    then emit (if r.partial then partial_event i err else error_event i err) c
    else if response_completed r.response
    then c
    else emit (drop_event i err) c

unfoldable pub drop_each : Option ErrorCode → List ℕ → Conn → Conn
drop_each err [] c = c
drop_each err (i ∷ rest) c =
    drop_each err rest (notify_dropped err i (c.heap i) (pop_and_finish (i ∷ rest) c))

unfoldable pub drop_requests : Option ErrorCode → Conn → Conn
drop_requests err c = drop_each err c.requests c

unfoldable pub do_close : Option ErrorCode → (soft : Bool) → Conn → Conn
do_close err true c = drop_requests err (record c { stream = shut })
do_close err false c =
    record (drop_requests err
      (record c { idle_timer = stop_timer c.idle_timer; listening = false; stream = closed })) {
        in_server = false;
      }

unfoldable pub close : Option ErrorCode → Conn → Conn
close err c = do_close err false c

unfoldable pub shutdown : Option ErrorCode → Conn → Conn
shutdown err c = do_close err true c

unfoldable pub graceful_stop : Conn → Conn
graceful_stop c =
    if is_empty c.requests
    then shutdown (some (http server_stopping)) c
    else record c { stopping = true }

-- `idle_timer->active()` and `idle_timer->once(...)` follow the pointer without a test.
unfoldable pub start_idle_timer : Timer → Conn → Conn
start_idle_timer null c = fail null_timer c
start_idle_timer t c =
    if not (is_active t) && (c.write_queue_size == 0) then record c { idle_timer = active } else c

unfoldable pub check_if_idle : Conn → Conn
check_if_idle c = if is_empty c.requests then start_idle_timer c.idle_timer c else c

unfoldable pub finish_next : (Conn → Conn) → List ℕ → Conn → Conn
finish_next next [] c = check_if_idle c
finish_next next (j ∷ _) c = if is_some (c.heap j).response then next c else c

-- After `cleanup_request` in `finish_request`.
unfoldable pub after_cleanup : (Conn → Conn) → Conn → Conn
after_cleanup next c =
    if c.closing || c.stopping
    then shutdown none (assert (is_empty c.requests) requests_left c)
    else finish_next next c.requests c

-- `finish_request`, where `next` is its call of `write_next_response`.
unfoldable pub finish_front : (Conn → Conn) → List ℕ → Conn → Conn
finish_front next [] c = fail front_of_empty c
finish_front next (i ∷ _) c =
    let c' = assert (response_completed (c.heap i).response) not_completed c in
    if not (c.heap i).is_done
    then put_request i (record (c.heap i) { finish_on_receive = true }) c'
    else after_cleanup next (cleanup_request c')

-- The response with the defaults filled in, as `write_next_response` does.
unfoldable pub prepare : ServerResponse → ServerResponse
prepare s = record s { code = if s.code == 0 then 200 else s.code; has_date = true }

-- Whether the body's parts are moved to `tmp_chunks`, to be sent as chunks behind the head.
unfoldable pub holds_chunks : ServerResponse → Bool
holds_chunks s = s.chunked && not s.completed && has_body s.body

unfoldable pub write_head : ℕ → ServerResponse → Conn → Conn
write_head i s c =
    let s' = prepare s in
    let sent = if holds_chunks s then record s' { body = [] } else s' in
    write (head i sent) (put_response i sent c)

-- A response without keep-alive ends the pipeline behind it.
unfoldable pub end_pipeline : ℕ → List ℕ → Conn → Conn
end_pipeline i rest c =
    let c' = record c {
      closing = true;
      reading = if (c.heap i).is_done then false else c.reading;
    } in
    if is_empty rest
    then c'
    else record (drop_requests (some (http pipeline_canceled)) (record c' { requests = rest })) {
      requests = i ∷ [];
    }

unfoldable pub write_chunks : ℕ → List Chunk → Conn → Conn
write_chunks i [] c = c
write_chunks i (b ∷ parts) c = write_chunks i parts (write (body_chunk i b) c)

-- `write_next_response` up to its last test, for the front request `i` and its response.
unfoldable pub start_response : ℕ → List ℕ → ServerResponse → Conn → Conn
start_response i rest s c =
    let c' = write_head i s c in
    if not s.keep_alive || not (c.heap i).keep_alive then end_pipeline i rest c' else c'

-- `write_next_response` is called only if the front request has a response.
unfoldable pub write_response : (Conn → Conn) → ℕ → List ℕ → Option ServerResponse → Conn → Conn
write_response next i rest none c = fail no_requests c
write_response next i rest (some s) c =
    let c' = start_response i rest s c in
    if s.completed
    then finish_front next c'.requests c'
    else if holds_chunks s
    then write_chunks i s.body c'
    else c'

-- `write_next_response` and `finish_request` call one another, once for each request in the queue.
unfoldable pub write_next : List ℕ → Conn → Conn
write_next [] c = fail front_of_empty c
write_next (i ∷ rest) c = write_response (write_next rest) i rest (c.heap i).response c

unfoldable pub write_next_response : Conn → Conn
write_next_response c = write_next c.requests c

unfoldable pub finish_request : Conn → Conn
finish_request c = finish_front write_next_response c.requests c

-- The members of `respond` that count the response and may stop the connection.
unfoldable pub count_response : Conn → Conn
count_response c =
    let c' = record c { requests_processed = u64 (c.requests_processed + 1) } in
    if not (c.max_keepalive_requests == 0)
      && leb c.max_keepalive_requests (u64 (c.requests_processed + 1))
      && length c.requests == 1
    then graceful_stop c'
    else c'

unfoldable pub adjust_response : Conn → ServerResponse → ServerResponse
adjust_response c s = record s {
  keep_alive = if c.stopping then false else s.keep_alive;
  completed = if not s.chunked || has_body s.body then true else s.completed;
}

unfoldable pub write_if_front : ℕ → List ℕ → Conn → Conn
write_if_front i [] c = fail front_of_empty c
write_if_front i (f ∷ _) c = if f == i then write_next_response c else c

unfoldable pub accept_response : ℕ → ServerResponse → Conn → Conn
accept_response i s c =
    let c' = count_response (put_response i s c) in
    write_if_front i c'.requests (put_response i (adjust_response c' s) c')

unfoldable pub respond : ℕ → ServerResponse → Conn → Conn × Option HttpError
respond i s c =
    let c' = assert (c.heap i).connection foreign_request c in
    if is_some (c.heap i).response
    then (c', some double_response)
    else (accept_response i s c', none)

unfoldable pub send_continue : ℕ → Conn → Conn × Option HttpError
send_continue i c =
    let c' = assert (not (is_empty c.requests)) no_requests c in
    if not (is i (front? c.requests))
    then (c', none)
    else if not (c.heap i).expects_continue || (c.heap i).http_10
    then (c', none)
    else if is_some (c.heap i).response
    then (c', some continue_after_response)
    else (write (continue_100 i) c', none)

unfoldable pub send_chunk : ℕ → ServerResponse → Chunk → Conn → Conn
send_chunk i s chunk c =
    let c' = assert (not (is_empty c.requests)) no_requests c in
    if is_empty chunk
    then c'
    else if is i (front? c.requests)
    then write (body_chunk i chunk) c'
    else put_response i (record s { body = s.body ++ chunk ∷ [] }) c'

unfoldable pub send_final_chunk : ℕ → ServerResponse → Chunk → Conn → Conn
send_final_chunk i s chunk c =
    let c' =
      put_response i (record s { completed = true })
        (assert (not (is_empty c.requests)) no_requests c) in
    if not (is i (front? c.requests)) then c' else finish_request (write (final_chunk i chunk) c')

pub data Upgrade : Type 0 where
  stream_of : Upgrade
  refused : ErrorCode → Upgrade
  throws : HttpError → Upgrade

unfoldable pub upgrade : ℕ → Conn → Conn × Upgrade
upgrade i c =
    if not (length c.requests == 1 && is i (front? c.requests))
    then (c, throws upgrade_impossible)
    else (
      record (cleanup_request (record c { listening = false; idle_timer = null })) {
        in_server = false;
        stream = detached;
      },
      stream_of,
    )
