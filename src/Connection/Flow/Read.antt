-- ===== src/Connection/Flow/Read.antt =====
-- Nothing that the event loop delivers holds a response back.
use uni_event_http.Base.{
  ℕ, ◌≡◌, refl, true, Option, none, some, List, [], ◌∷◌, arith, sym, ap, ◌-◌, ltb, length, is_some,
  not, ◌||◌, ◌&&◌, if_elim, is_empty,
}
use uni_event_http.Error.{ErrorCode}
use uni_event_http.Connection.State.{
  Chunk, Conn, ServerResponse, Event, stop_timer, back?, new_connection, put_request, emit,
  timer_with_requests, route_event, partial_event, request_event, receive_event, read_ignore,
  is_active,
}
use uni_event_http.Connection.Calls.{Call}
use uni_event_http.Connection.Read.{
  Parsed, ParseState, is_exact, is_in_headers, is_done, take_parsed, parsed_id, dispatch,
  answer_error, request_error, failing_request, on_read_error, route, deliver, end_round, round,
  on_read, on_connection, on_write, on_shutdown, on_eof, on_idle,
}
use uni_event_http.Connection.Loop.{
  Delivery, data_read, read_failed, connected, written, shutdown_done, end_of_file, idle_timeout,
  called, step, run, delivers,
}
use uni_event_http.Connection.Loop
use uni_event_http.Connection.Flow.{IsFlowing}
use uni_event_http.Connection.Flow.Frame.{
  same-FrontBegun, same-IsFlowing, assert-IsFlowing, check_if_idle-IsFlowing, shutdown-IsFlowing,
  close-IsFlowing,
}
use uni_event_http.Connection.Flow.Write.{finish_request-IsFlowing}
use uni_event_http.Connection.Flow.Calls.{
  FlowingAfter, put_request-IsFlowing, respond-IsFlowing, calls-IsFlowing,
}
use uni_event_http.Connection.Flow.Take.{take_parsed-IsFlowing, fresh_request-IsFlowing}

module _ (page : ℕ → Chunk) (user : Event → Conn → List Call) where
  dispatch-IsFlowing : (e : Event) (c : Conn) → IsFlowing c → IsFlowing (dispatch page user e c)
  unfolding dispatch
  dispatch-IsFlowing e c v =
      calls-IsFlowing (user e (emit e c)) (emit e c)
        (same-IsFlowing c (emit e c) refl refl refl refl refl (λ j. refl) (λ j. refl) v)

  read_ignore-IsFlowing : (c : Conn) → IsFlowing c → IsFlowing (read_ignore c)
  read_ignore-IsFlowing c v =
      same-IsFlowing c (read_ignore c) refl refl refl refl refl (λ j. refl) (λ j. refl) v

  answer_error-IsFlowing :
      (i : ℕ) (c : Conn) → IsFlowing c → IsFlowing (answer_error page user i (c.heap i).response c)
  unfolding answer_error
  answer_error-IsFlowing i c v = by_response (c.heap i).response refl
    where
      by_response :
          (s : Option ServerResponse)
          → (c.heap i).response ≡ s
          → IsFlowing (answer_error page user i s c)
      by_response none e = respond-IsFlowing i _ c v
      by_response (some s) e = put_request-IsFlowing i _ c refl (sym (ap is_some e)) v

  request_error-IsFlowing :
      (i : ℕ) (err : Option ErrorCode) (c : Conn)
      → IsFlowing c
      → IsFlowing (request_error page user i err c)
  unfolding request_error
  request_error-IsFlowing i err c v =
      answer_error-IsFlowing i _ (dispatch-IsFlowing _ (read_ignore c) (read_ignore-IsFlowing c v))

  abbrev failed : Conn × ℕ → Conn
  failed (d, i) = put_request i (record (d.heap i) { is_done = true }) d

  failing_request-IsFlowing :
      (b : Option ℕ) (c : Conn)
      → IsFlowing c
      → IsFlowing (failed (failing_request page user b (record c { parsing = none })))
  unfolding failing_request
  failing_request-IsFlowing none c v = fresh_request-IsFlowing c v
  failing_request-IsFlowing (some b) c v =
      if_elim (λ (r : Conn × ℕ). IsFlowing (failed r)) (c.heap b).is_done _ _
        (λ _. fresh_request-IsFlowing c v)
        (λ _. record {
          ready = record {
            parsing_unread = tt;
            parsing_queued = λ _ _. tt;
            closing_busy = v.ready.closing_busy;
            in_turn = v.ready.in_turn;
          };
          front_begun = λ h.
              same-FrontBegun c (failed (record c { parsing = none }, b)) c.requests refl
                (λ j. ground arith) (v.front_begun h);
        })

  on_read_error-IsFlowing :
      (err : ErrorCode) (c : Conn) → IsFlowing c → IsFlowing (on_read_error page user err c)
  unfolding on_read_error
  on_read_error-IsFlowing err c v = request_error-IsFlowing _ _ _ (
      failing_request-IsFlowing (back? c.requests)
        (record c { idle_timer = stop_timer c.idle_timer })
        (same-IsFlowing c _ refl refl refl refl refl (λ j. refl) (λ j. refl) v))

  route-IsFlowing : (i : ℕ) (c : Conn) → IsFlowing c → IsFlowing (route page user i c)
  unfolding route
  route-IsFlowing i c v =
      if_elim IsFlowing (c.heap i).routed _ _ (λ _. v)
        (λ _. dispatch-IsFlowing (route_event i) _ (put_request-IsFlowing i _ c refl refl v))

  deliver-IsFlowing :
      (i : ℕ) (state : ParseState) (c : Conn)
      → IsFlowing c
      → IsFlowing (deliver page user i state c)
  unfolding deliver
  deliver-IsFlowing i state c v =
      if_elim IsFlowing (c.heap i).partial _ _ (λ _. dispatch-IsFlowing (partial_event i none) c v)
        (λ _.
          if_elim IsFlowing (is_done state) _ _
            (λ _. dispatch-IsFlowing (request_event i) _ (dispatch-IsFlowing (receive_event i) c v))
            (λ _. v))

  end_round-IsFlowing :
      (i : ℕ) (state : ParseState) (c : Conn)
      → IsFlowing c
      → IsFlowing (end_round page user i state c).0
  unfolding end_round
  end_round-IsFlowing i state c v =
      if_elim FlowingAfter (is_done state) _ _
        (λ _.
          if_elim FlowingAfter (c.heap i).finish_on_receive _ _ (λ _. finish_request-IsFlowing c v)
            (λ _.
              if_elim FlowingAfter (c.closing || not (c.heap i).keep_alive) _ _
                (λ _. read_ignore-IsFlowing c v) (λ _. v)))
        (λ _. v)

  pub round-IsFlowing : (p : Parsed) (c : Conn) → IsFlowing c → IsFlowing (round page user p c).0
  unfolding round
  round-IsFlowing p c v =
      if_elim FlowingAfter (is_some p.error) _ _ (λ _. request_error-IsFlowing i p.error c1 w)
        (λ _.
          if_elim FlowingAfter (is_in_headers p.state) _ _ (λ _. w)
            (λ _.
              if_elim FlowingAfter
                (ltb 1 (length c1.requests) && is_exact (c1.heap i).upgrade_header) _ _
                (λ _. read_ignore-IsFlowing _ (request_error-IsFlowing i _ c1 w))
                (λ _.
                  end_round-IsFlowing i p.state _
                    (deliver-IsFlowing i p.state _ (route-IsFlowing i c1 w)))))
    where
      i : ℕ
      i = parsed_id c.parsing c.next_id

      c1 : Conn
      c1 = take_parsed p c

      w : IsFlowing c1
      w = take_parsed-IsFlowing p c v

  on_read-IsFlowing :
      (ps : List Parsed) (c : Conn) → IsFlowing c → IsFlowing (on_read page user ps c)
  unfolding on_read
  on_read-IsFlowing [] c v = v
  on_read-IsFlowing (p ∷ ps) c v =
      let w = round-IsFlowing p c v in
      if_elim IsFlowing (round page user p c).1 _ _ (λ _. on_read-IsFlowing ps _ w) (λ _. w)

  delivered-IsFlowing :
      (d : Delivery) (c : Conn) → IsFlowing c → IsFlowing (Loop.deliver page user d c)
  unfolding Loop.deliver on_connection on_write on_shutdown on_eof on_idle
  delivered-IsFlowing (data_read ps) c v = on_read-IsFlowing ps c v
  delivered-IsFlowing (read_failed err) c v = on_read_error-IsFlowing err c v
  delivered-IsFlowing (connected none) c v = v
  delivered-IsFlowing (connected (some err)) c v = close-IsFlowing _ c v.ready.parsing_unread
  delivered-IsFlowing (written none) c v =
      check_if_idle-IsFlowing _
        (same-IsFlowing c _ refl refl refl refl refl (λ j. refl) (λ j. refl) v)
  delivered-IsFlowing (written (some err)) c v =
      close-IsFlowing _ _
        (same-IsFlowing c (record c { write_queue_size = c.write_queue_size - 1 }) refl refl refl
          refl refl (λ j. refl) (λ j. refl) v).ready.parsing_unread
  delivered-IsFlowing shutdown_done c v =
      same-IsFlowing c _ refl refl refl refl refl (λ j. refl) (λ j. refl) v
  delivered-IsFlowing end_of_file c v = shutdown-IsFlowing _ c v.ready.parsing_unread
  delivered-IsFlowing idle_timeout c v =
      if_elim IsFlowing (is_active c.idle_timer) _ _
        (λ _.
          close-IsFlowing _ _
            (assert-IsFlowing (is_empty c.requests) timer_with_requests
              (record c { idle_timer = stop_timer c.idle_timer })
              (same-IsFlowing c _ refl refl refl refl refl (λ j. refl) (λ j. refl)
                v)).ready.parsing_unread)
        (λ _. v)
  delivered-IsFlowing (called ks) c v = calls-IsFlowing ks c v

  pub step-IsFlowing : (d : Delivery) (c : Conn) → IsFlowing c → IsFlowing (step page user d c)
  unfolding step
  step-IsFlowing d c v =
      if_elim IsFlowing (delivers page user d c) _ _ (λ _. delivered-IsFlowing d c v) (λ _. v)

  from-IsFlowing : (ds : List Delivery) (c : Conn) → IsFlowing c → IsFlowing (run page user ds c)
  unfolding run
  from-IsFlowing [] c v = v
  from-IsFlowing (d ∷ ds) c v = from-IsFlowing ds (step page user d c) (step-IsFlowing d c v)

pub new_connection-IsFlowing : (timeout limit : ℕ) → IsFlowing (new_connection timeout limit)
unfolding new_connection
new_connection-IsFlowing timeout limit = record {
  ready = record {
    parsing_unread = tt;
    parsing_queued = λ _ _. tt;
    closing_busy = λ _ h. absurd (ground (arith, h));
    in_turn = λ _. tt;
  };
  front_begun = λ _. tt;
}

-- From a new connection on, whatever the stream and the timer deliver and whatever calls the user's
-- callbacks and code make, these hold while the stream is open: if the request at the front of the
-- queue has a response, that is the last response that was begun; the request that the parser is in
-- the middle of is at the back of the queue, unless the connection closes; a connection that
-- closes has a request in the queue; and every chunk that was written belongs to the response that
-- was begun last before it. In any state of the stream, the parser's request is not marked as
-- received.
pub run-IsFlowing :
    (page : ℕ → Chunk) (user : Event → Conn → List Call) (timeout limit : ℕ) (ds : List Delivery)
    → IsFlowing (run page user ds (new_connection timeout limit))
run-IsFlowing page user timeout limit ds =
    from-IsFlowing page user ds (new_connection timeout limit)
      (new_connection-IsFlowing timeout limit)
