-- ===== src/Examples/Connections.antt =====
-- A connection at work: pipelined requests, limits, errors.
use uni_event_http.Base.{ℕ, ◌≡◌, refl, true, false, none, some, List, [], ◌∷◌, if◌then◌else◌, ◌==◌}
use uni_event_http.Error.{operation_canceled, external}
use uni_event_http.Connection.State.{
  Chunk, ServerResponse, ServerRequest, new_server_request, absent, Event, request_event,
  error_event, Conn, new_connection, front_of_empty, foreign_request, null_timer, requests_left,
  null,
}
use uni_event_http.Connection.Respond
use uni_event_http.Connection.Respond.{finish_request, drop_requests}
use uni_event_http.Connection.Calls.{Call, respond, drop, call}
use uni_event_http.Connection.Read.{Parsed, done, request_error, on_read_error}
use uni_event_http.Connection.Loop.{Delivery, data_read, idle_timeout, called, run}
use uni_event_http.Connection.Order.{InOrder}
use uni_event_http.Connection.Order.Read.{run-InOrder}
use uni_event_http.Connection.Flow.{IsFlowing}
use uni_event_http.Connection.Flow.Read.{run-IsFlowing}
use uni_event_http.Connection.Frames.{IsFramed}
use uni_event_http.Connection.Frames.Read.{run-IsFramed}
use uni_event_http.Connection.Drop.{emptied, drop_requests_lem, do_close-hard}
use uni_event_http.Connection.Limits.{
  finish_request_faults, stopping_drops_pipeline, send_final_chunk_queued, respond-at_limit,
  last_keep_alive,
}
use uni_event_http.Connection.Errors.{drop_in_error_event}
use uni_event_http.Connection.Stuck.{IsAnswered, error_after_answer}

abbrev ok_response : ServerResponse
ok_response = record {
  code = 200;
  chunked = false;
  body = (b'o' ∷ b'k' ∷ []) ∷ [];
  keep_alive = true;
  has_date = false;
  completed = false;
}

abbrev page : ℕ → Chunk
page code = b'!' ∷ []

-- A whole request in one piece.
abbrev get_request : Parsed
get_request = record {
  state = done;
  error = none;
  keep_alive = true;
  upgrade_header = absent;
  expects_continue = false;
  http_10 = false;
}

abbrev answers : Event → Conn → List Call
answers (request_event i) c = respond i ok_response ∷ []
answers _ c = []

abbrev drops_on_error : Event → Conn → List Call
drops_on_error (error_event i err) c = drop i ∷ []
drops_on_error _ c = []

run-InOrder_example :
    InOrder
      (run page answers
        (data_read (get_request ∷ get_request ∷ []) ∷ [])
        (new_connection 1000 0)).wire
run-InOrder_example =
    run-InOrder page answers 1000 0 (data_read (get_request ∷ get_request ∷ []) ∷ [])

-- The second of two requests is answered before the first.
abbrev second_first : List Delivery
second_first =
    data_read (get_request ∷ get_request ∷ [])
    ∷ called (respond 1 ok_response ∷ respond 0 ok_response ∷ [])
    ∷ []

run-IsFlowing_example : IsFlowing (run page (λ _ _. []) second_first (new_connection 1000 0))
run-IsFlowing_example = run-IsFlowing page (λ _ _. []) 1000 0 second_first

run-IsFramed_example : IsFramed (run page (λ _ _. []) second_first (new_connection 1000 0))
run-IsFramed_example = run-IsFramed page (λ _ _. []) 1000 0 second_first

-- Two whole requests in the queue, neither answered.
abbrev waiting_request : ServerRequest
unfolding new_server_request
waiting_request = record new_server_request { is_done = true }

abbrev two_waiting : Conn
two_waiting = record (new_connection 1000 0) {
  requests = 0 ∷ 1 ∷ [];
  heap = λ _. waiting_request;
  next_id = 2;
}

drop_requests_lem_example :
    drop_requests (some operation_canceled) two_waiting
    ≡ emptied (some operation_canceled) (0 ∷ 1 ∷ []) two_waiting
drop_requests_lem_example = drop_requests_lem (some operation_canceled) two_waiting

do_close-hard_example :
    call (respond 1 ok_response) (Respond.do_close (some operation_canceled) false two_waiting)
    ≡ Respond.do_close (some operation_canceled) false two_waiting
do_close-hard_example =
    (do_close-hard (some operation_canceled) two_waiting 1 (respond 1 ok_response) refl refl).5

abbrev one_waiting : Conn
one_waiting = record (new_connection 1000 1) {
  requests = 0 ∷ [];
  heap = λ _. waiting_request;
  next_id = 1;
}

respond-at_limit_example :
    last_keep_alive (Respond.respond 0 ok_response one_waiting).0.wire ≡ some false
unfolding new_connection new_server_request
respond-at_limit_example = (respond-at_limit 0 ok_response one_waiting refl refl refl).1

abbrev answered_request : ServerRequest
answered_request = record waiting_request {
  response = some (record ok_response { completed = true });
}

abbrev one_answered : Conn
one_answered = record one_waiting { heap = λ _. answered_request; idle_timer = null }

finish_request_faults_example : (finish_request one_answered).faults ≡ null_timer ∷ []
unfolding new_connection new_server_request
finish_request_faults_example =
    finish_request_faults 0 one_answered
      (record { queue = refl; answered = refl; received = refl; stays = refl })

abbrev stopping_pipeline : Conn
stopping_pipeline = record two_waiting {
  heap = λ i. if i == 0 then answered_request else waiting_request;
  stopping = true;
}

stopping_drops_pipeline_example : (finish_request stopping_pipeline).faults ≡ requests_left ∷ []
unfolding new_connection new_server_request
stopping_drops_pipeline_example =
    (stopping_drops_pipeline 0 1 [] stopping_pipeline refl refl refl refl).0

send_final_chunk_queued_example :
    Respond.send_final_chunk 1 (record ok_response { chunked = true }) (b'x' ∷ []) two_waiting
    ≡ Respond.send_final_chunk 1 (record ok_response { chunked = true }) [] two_waiting
send_final_chunk_queued_example =
    send_final_chunk_queued 1 (record ok_response { chunked = true }) (b'x' ∷ []) [] two_waiting
      refl

drop_in_error_event_example :
    (request_error page drops_on_error 0 (some (external 1)) one_waiting).faults
    ≡ front_of_empty ∷ foreign_request ∷ []
unfolding new_connection new_server_request
drop_in_error_event_example =
    drop_in_error_event page drops_on_error 0 (some (external 1)) one_waiting (λ d. refl)
      (record { queue = refl; unanswered = refl; connected = refl; whole = refl })

-- The request is answered while it is received.
abbrev answered_early : Conn
unfolding new_server_request
answered_early = record (new_connection 1000 0) {
  requests = 0 ∷ [];
  heap =
      λ _. record new_server_request { response = some (record ok_response { completed = true }) };
  next_id = 1;
  parsing = some 0;
}

abbrev gives_up : List Delivery
gives_up = data_read [] ∷ called (respond 0 ok_response ∷ drop 0 ∷ []) ∷ idle_timeout ∷ []

answered_early-IsAnswered : IsAnswered 0 answered_early
unfolding new_server_request
answered_early-IsAnswered = record {
  queue = refl;
  connected = refl;
  answered = refl;
  unread = refl;
}

error_after_answer_example :
    let d =
      run page
        (λ _ _. [])
        gives_up
        (on_read_error page (λ _ _. []) operation_canceled answered_early) in
    (d.requests ≡ 0 ∷ []) × (d.wire ≡ answered_early.wire) × (d.stream ≡ answered_early.stream)
error_after_answer_example =
    error_after_answer page (λ _ _. []) 0 operation_canceled answered_early gives_up (λ _ _. refl)
      answered_early-IsAnswered ((refl, (refl, tt)), tt)
