-- ===== src/Connection/Frames/Read.antt =====
-- Nothing that the event loop delivers mixes responses.
use uni_event_http.Base.{
  ◌∙◌, Bool, false, ℕ, ◌≡◌, refl, true, Option, none, some, List, [], ◌∷◌, arith, sym, ap, ltb,
  length, is_some, not, ◌||◌, ◌&&◌, if_elim,
}
use uni_event_http.Error.{ErrorCode}
use uni_event_http.Connection.State.{
  Chunk, Conn, ServerResponse, new_server_request, Event, stop_timer, back?, new_connection,
  put_request, emit, route_event, partial_event, request_event, receive_event, read_ignore,
  is_active,
}
use uni_event_http.Connection.Calls.{Call}
use uni_event_http.Connection.Read.{
  Parsed, is_done_state, ParseState, is_exact, is_in_headers, is_done, take_parsed, parsed_id,
  dispatch, answer_error, request_error, failing_request, on_read_error, route, deliver, end_round,
  round, on_read, on_connection, on_write, on_shutdown, on_eof, on_idle,
}
use uni_event_http.Connection.Loop.{
  Delivery, data_read, read_failed, connected, written, shutdown_done, end_of_file, idle_timeout,
  called, step, run, delivers,
}
use uni_event_http.Connection.Loop
use uni_event_http.Connection.Respond.{response_completed}
use uni_event_http.Connection.Order.Read.{round-IsOrdered, step-IsOrdered, new_connection-IsOrdered}
use uni_event_http.Connection.Flow.{is_open}
use uni_event_http.Connection.Flow.Read.{round-IsFlowing, step-IsFlowing, new_connection-IsFlowing}
use uni_event_http.Connection.Frames.{pending, IsFramed}
use uni_event_http.Connection.Frames.Frame.{
  same-IsFramed, check_if_idle-IsFramed, close-IsFramed, shutdown-IsFramed, shut-IsFramed,
}
use uni_event_http.Connection.Frames.Respond.{finish_request-IsFramed}
use uni_event_http.Connection.Frames.Answered.{FramedAfter, put_request-IsFramed, respond-IsFramed}
use uni_event_http.Connection.Frames.Calls.{calls-IsFramed}
use uni_event_http.Connection.Frames.Awaited.{Awaits}
use uni_event_http.Connection.Frames.Held.{calls-Awaits}
use uni_event_http.Connection.Frames.Steady.{finish_request-Steady}
use uni_event_http.Connection.Respond.{finish_request}
use uni_event_http.Connection.Frames.Take.{IsSound, take_parsed_lem, fresh_request-IsFramed}

-- Members that neither the responses nor the queue depend on.
beside-IsFramed :
    (c d : Conn)
    → d.requests ≡ c.requests
    → d.stream ≡ c.stream
    → d.wire ≡ c.wire
    → ((j : ℕ) → d.heap j ≡ c.heap j)
    → IsFramed c
    → IsFramed d
beside-IsFramed c d q s w h v =
    same-IsFramed c d w
      (record {
        requests = q;
        stream = s;
        given = λ j. ap (λ r. is_some r.response) (h j);
        whole = λ j. ap (λ r. response_completed r.response) (h j);
        ends = λ j. ap (λ r. r.finish_on_receive) (h j);
        read = λ j. ap (λ r. r.is_done) (h j);
      })
      v

read_ignore-IsFramed : (c : Conn) → IsFramed c → IsFramed (read_ignore c)
read_ignore-IsFramed c v = beside-IsFramed c (read_ignore c) refl refl refl (λ j. refl) v

received-IsFramed :
    (i : ℕ) (c : Conn)
    → IsFramed c
    → IsFramed (put_request i (record (c.heap i) { is_done = true }) (record c { parsing = none }))
received-IsFramed i c v = record {
  frames = v.frames;
  matches = λ h. v.matches h ∙ same c.requests;
  holds = λ h j f d.
      let x = v.holds h j (ground (arith, f)) (ground (arith, d)) in
      record { at_front = x.at_front; whole = ground (arith, x.whole) };
}
  where
    same :
        (q : List ℕ)
        → pending c q
          ≡ pending
              (put_request i (record (c.heap i) { is_done = true }) (record c { parsing = none }))
              q
    same [] = refl
    same (j ∷ q) = ground arith

module _ (page : ℕ → Chunk) (user : Event → Conn → List Call) where
  dispatch-IsFramed : (e : Event) (c : Conn) → IsFramed c → IsFramed (dispatch page user e c)
  unfolding dispatch
  dispatch-IsFramed e c v =
      calls-IsFramed (user e (emit e c)) (emit e c)
        (beside-IsFramed c (emit e c) refl refl refl (λ j. refl) v)

  dispatch-Awaits : (i : ℕ) (e : Event) (c : Conn) → Awaits i c → Awaits i (dispatch page user e c)
  unfolding dispatch
  dispatch-Awaits i e c v = calls-Awaits i (user e (emit e c)) (emit e c) (record {
    done = v.done;
    held = λ h f. let x = v.held h f in record { at_front = x.at_front; whole = x.whole };
  })

  answer_error-IsFramed :
      (i : ℕ) (c : Conn) → IsFramed c → IsFramed (answer_error page user i (c.heap i).response c)
  unfolding answer_error
  answer_error-IsFramed i c v = by_response (c.heap i).response refl
    where
      by_response :
          (s : Option ServerResponse)
          → (c.heap i).response ≡ s
          → IsFramed (answer_error page user i s c)
      by_response none e = respond-IsFramed i _ c v
      by_response (some s) e =
          put_request-IsFramed i _ c refl refl (sym (ap is_some e)) (sym (ap response_completed e))
            v

  request_error-IsFramed :
      (i : ℕ) (err : Option ErrorCode) (c : Conn)
      → IsFramed c
      → IsFramed (request_error page user i err c)
  unfolding request_error
  request_error-IsFramed i err c v =
      answer_error-IsFramed i _ (dispatch-IsFramed _ (read_ignore c) (read_ignore-IsFramed c v))

  abbrev failed : Conn × ℕ → Conn
  failed (d, i) = put_request i (record (d.heap i) { is_done = true }) d

  on_read_error-IsFramed :
      (err : ErrorCode) (c : Conn) → IsSound c → IsFramed (on_read_error page user err c)
  unfolding on_read_error failing_request
  on_read_error-IsFramed err c v = request_error-IsFramed _ _ _ (by_back (back? c.requests))
    where
      c1 : Conn
      c1 = record c { idle_timer = stop_timer c.idle_timer; parsing = none }

      fresh : IsFramed (failed (failing_request page user none c1))
      fresh =
          fresh_request-IsFramed (record c { idle_timer = stop_timer c.idle_timer })
            v.ordered.rising (beside-IsFramed c _ refl refl refl (λ j. refl) v.framed)

      by_back : (b : Option ℕ) → IsFramed (failed (failing_request page user b c1))
      by_back none = fresh
      by_back (some b) =
          if_elim (λ (r : Conn × ℕ). IsFramed (failed r)) (c.heap b).is_done _ _ (λ _. fresh)
            (λ _.
              received-IsFramed b (record c { idle_timer = stop_timer c.idle_timer })
                (beside-IsFramed c _ refl refl refl (λ j. refl) v.framed))

  route-IsFramed : (i : ℕ) (c : Conn) → IsFramed c → IsFramed (route page user i c)
  unfolding route
  route-IsFramed i c v =
      if_elim IsFramed (c.heap i).routed _ _ (λ _. v)
        (λ _.
          dispatch-IsFramed (route_event i) _ (put_request-IsFramed i _ c refl refl refl refl v))

  route-Awaits : (i : ℕ) (c : Conn) → Awaits i c → Awaits i (route page user i c)
  unfolding route
  route-Awaits i c v =
      if_elim (Awaits i) (c.heap i).routed _ _ (λ _. v)
        (λ _.
          dispatch-Awaits i (route_event i)
            (put_request i (record (c.heap i) { routed = true; server = true }) c)
            (record {
              done = ground (arith, v.done);
              held = λ h f.
                  let x = v.held h (ground (arith, f)) in
                  record { at_front = x.at_front; whole = ground (arith, x.whole) };
            }))

  deliver-IsFramed :
      (i : ℕ) (state : ParseState) (c : Conn) → IsFramed c → IsFramed (deliver page user i state c)
  unfolding deliver
  deliver-IsFramed i state c v =
      if_elim IsFramed (c.heap i).partial _ _ (λ _. dispatch-IsFramed (partial_event i none) c v)
        (λ _.
          if_elim IsFramed (is_done state) _ _
            (λ _. dispatch-IsFramed (request_event i) _ (dispatch-IsFramed (receive_event i) c v))
            (λ _. v))

  deliver-Awaits :
      (i : ℕ) (state : ParseState) (c : Conn) → Awaits i c → Awaits i (deliver page user i state c)
  unfolding deliver
  deliver-Awaits i state c v =
      if_elim (Awaits i) (c.heap i).partial _ _ (λ _. dispatch-Awaits i (partial_event i none) c v)
        (λ _.
          if_elim (Awaits i) (is_done state) _ _
            (λ _. dispatch-Awaits i (request_event i) _ (dispatch-Awaits i (receive_event i) c v))
            (λ _. v))

  end_round-IsFramed :
      (i : ℕ) (state : ParseState) (c : Conn)
      → (is_done state ≡ true → Awaits i c)
      → IsFramed c
      → IsFramed (end_round page user i state c).0
  unfolding end_round
  end_round-IsFramed i state c a v =
      if_elim FramedAfter (is_done state) _ _
        (λ d.
          if_elim FramedAfter (c.heap i).finish_on_receive _ _ (λ f. ended (a d) f)
            (λ _.
              if_elim FramedAfter (c.closing || not (c.heap i).keep_alive) _ _
                (λ _. read_ignore-IsFramed c v) (λ _. v)))
        (λ _. v)
    where
      ended : Awaits i c → (c.heap i).finish_on_receive ≡ true → IsFramed (finish_request c)
      ended w f = by_open (is_open c.stream) refl
        where
          by_open : (b : Bool) → is_open c.stream ≡ b → IsFramed (finish_request c)
          by_open true o = let x = w.held o f in finish_request-IsFramed i c x.at_front x.whole v
          by_open false o =
              shut-IsFramed (finish_request c) (still_shut (is_open (finish_request c).stream) refl)
            where
              still_shut :
                  (b : Bool)
                  → is_open (finish_request c).stream ≡ b
                  → is_open (finish_request c).stream ≡ false
              still_shut false e = e
              still_shut true e =
                  absurd (ground (arith, (finish_request-Steady i c w.done).stream e, o))

  round-IsFramed : (p : Parsed) (c : Conn) → IsSound c → IsFramed (round page user p c).0
  unfolding round
  round-IsFramed p c v =
      if_elim FramedAfter (is_some p.error) _ _ (λ _. request_error-IsFramed i p.error c1 w.0)
        (λ _.
          if_elim FramedAfter (is_in_headers p.state) _ _ (λ _. w.0)
            (λ _.
              if_elim FramedAfter
                (ltb 1 (length c1.requests) && is_exact (c1.heap i).upgrade_header) _ _
                (λ _. read_ignore-IsFramed _ (request_error-IsFramed i _ c1 w.0))
                (λ _.
                  end_round-IsFramed i p.state _
                    (λ d.
                      deliver-Awaits i p.state _ (route-Awaits i c1 (w.1 (done_state p.state d))))
                    (deliver-IsFramed i p.state _ (route-IsFramed i c1 w.0)))))
    where
      i : ℕ
      i = parsed_id c.parsing c.next_id

      c1 : Conn
      c1 = take_parsed p c

      w : IsFramed c1 × (is_done_state p.state ≡ true → Awaits i c1)
      w = take_parsed_lem p c v

      done_state : (s : ParseState) → is_done s ≡ true → is_done_state s ≡ true
      done_state s e = ground (arith, e)

  round-IsSound : (p : Parsed) (c : Conn) → IsSound c → IsSound (round page user p c).0
  round-IsSound p c v = record {
    ordered = round-IsOrdered page user p c v.ordered;
    flowing = round-IsFlowing page user p c v.flowing;
    framed = round-IsFramed p c v;
  }

  on_read-IsFramed : (ps : List Parsed) (c : Conn) → IsSound c → IsFramed (on_read page user ps c)
  unfolding on_read
  on_read-IsFramed [] c v = v.framed
  on_read-IsFramed (p ∷ ps) c v =
      let w = round-IsSound p c v in
      if_elim IsFramed (round page user p c).1 _ _ (λ _. on_read-IsFramed ps _ w) (λ _. w.framed)

  delivered-IsFramed : (d : Delivery) (c : Conn) → IsSound c → IsFramed (Loop.deliver page user d c)
  unfolding Loop.deliver on_connection on_write on_shutdown on_eof on_idle
  delivered-IsFramed (data_read ps) c v = on_read-IsFramed ps c v
  delivered-IsFramed (read_failed err) c v = on_read_error-IsFramed err c v
  delivered-IsFramed (connected none) c v = v.framed
  delivered-IsFramed (connected (some err)) c v = close-IsFramed _ c
  delivered-IsFramed (written none) c v =
      check_if_idle-IsFramed _ (beside-IsFramed c _ refl refl refl (λ j. refl) v.framed)
  delivered-IsFramed (written (some err)) c v = close-IsFramed _ _
  delivered-IsFramed shutdown_done c v = beside-IsFramed c _ refl refl refl (λ j. refl) v.framed
  delivered-IsFramed end_of_file c v = shutdown-IsFramed _ c
  delivered-IsFramed idle_timeout c v =
      if_elim IsFramed (is_active c.idle_timer) _ _ (λ _. close-IsFramed _ _) (λ _. v.framed)
  delivered-IsFramed (called ks) c v = calls-IsFramed ks c v.framed

  step-IsSound : (d : Delivery) (c : Conn) → IsSound c → IsSound (step page user d c)
  step-IsSound d c v = record {
    ordered = step-IsOrdered page user d c v.ordered;
    flowing = step-IsFlowing page user d c v.flowing;
    framed =
        unfold step in
        if_elim IsFramed (delivers page user d c) _ _ (λ _. delivered-IsFramed d c v)
          (λ _. v.framed);
  }

  from-IsSound : (ds : List Delivery) (c : Conn) → IsSound c → IsSound (run page user ds c)
  unfolding run
  from-IsSound [] c v = v
  from-IsSound (d ∷ ds) c v = from-IsSound ds (step page user d c) (step-IsSound d c v)

new_connection-IsFramed : (timeout limit : ℕ) → IsFramed (new_connection timeout limit)
unfolding new_connection new_server_request
new_connection-IsFramed timeout limit = record {
  frames = λ _. tt;
  matches = λ _. refl;
  holds = λ _ j f d. absurd (ground (arith, f));
}

-- From a new connection on, whatever the stream and the timer deliver and whatever calls the user's
-- callbacks and code make, these hold while the stream is open: the head of a response, and an interim
-- response, is written only when no response is begun and not ended, and a chunk only when its own
-- response is; the response that is begun and not ended is that of the request at the front of the
-- queue, if that response is given and not complete, and else there is none; and a request that ends
-- when it is received in full is at the front, with its whole response.
pub run-IsFramed :
    (page : ℕ → Chunk) (user : Event → Conn → List Call) (timeout limit : ℕ) (ds : List Delivery)
    → IsFramed (run page user ds (new_connection timeout limit))
run-IsFramed page user timeout limit ds =
    (from-IsSound page user ds (new_connection timeout limit) (record {
      ordered = new_connection-IsOrdered timeout limit;
      flowing = new_connection-IsFlowing timeout limit;
      framed = new_connection-IsFramed timeout limit;
    })).framed
