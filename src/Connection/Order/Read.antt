-- ===== src/Connection/Order/Read.antt =====
-- Whatever the event loop delivers keeps the order of the responses.
use uni_event_http.Base.{
  ℕ, suc, ◌≤◌, ◌≡◌, refl, Bool, true, false, Option, none, some, List, [], ◌∷◌, ◌++◌, arith, sym,
  length, ltb, subst, if◌then◌else◌, is_some, not, ◌||◌, ◌&&◌, if_elim, is_empty,
}
use uni_event_http.Error.{ErrorCode}
use uni_event_http.Connection.State.{
  Chunk, Conn, ServerResponse, Event, stop_timer, back?, is, new_server_request, new_connection,
  emit, timer_with_requests, route_event, partial_event, request_event, receive_event, read_ignore,
  is_active,
}
use uni_event_http.Connection.Calls.{Call}
use uni_event_http.Connection.Read.{
  Parsed, ParseState, is_exact, is_in_headers, is_done_state, is_done, new_request, start_parsing,
  enqueue, take_parsed, parsed_id, dispatch, answer_error, request_error, failing_request,
  on_read_error, route, deliver, end_round, round, on_read, on_connection, on_write, on_shutdown,
  on_eof, on_idle,
}
use uni_event_http.Connection.Loop.{
  Delivery, data_read, read_failed, connected, written, shutdown_done, end_of_file, idle_timeout,
  called, step, run, delivers,
}
use uni_event_http.Connection.Loop
use uni_event_http.Connection.Order.{InOrder, Rising, IsOrdered, Fits, FrontFits, ParsingFits}
use uni_event_http.Connection.Order.Respond.{check_if_idle-IsOrdered}
use uni_event_http.Connection.Order.Finish.{
  put_request-IsOrdered, assert-IsOrdered, close-IsOrdered, shutdown-IsOrdered,
  finish_request-IsOrdered,
}
use uni_event_http.Connection.Order.Calls.{OrderedAfter, calls-IsOrdered, respond-IsOrdered}

-- A request that may stand at the back: no later one exists, and it fits what was written.
record IsLast (c : Conn) (i : ℕ) : Type 0 where
  last : suc i ≡ c.next_id
  fits : Fits c i

Rising-append :
    (lo : ℕ) (q : List ℕ) (i : ℕ)
    → Rising lo (suc i) q
    → lo ≤ i
    → is i (back? q) ≡ false
    → Rising lo (suc i) (q ++ i ∷ [])
Rising-append lo [] i r l b = (l, omega arith, tt)
Rising-append lo (j ∷ []) i r l b = ground arith
Rising-append lo (j ∷ k ∷ q) i r l b =
    (r.0, r.1, Rising-append (suc j) (k ∷ q) i r.2 (omega (arith, r.2.0, r.2.1)) b)

enqueue-IsOrdered : (i : ℕ) (c : Conn) → IsLast c i → IsOrdered c → IsOrdered (enqueue i c)
unfolding enqueue
enqueue-IsOrdered i c l v =
    if_elim IsOrdered (is i (back? c.requests)) _ _ (λ _. v)
      (λ n. record {
        in_order = v.in_order;
        rising =
            subst (λ t. Rising 0 t (c.requests ++ i ∷ [])) l.last
              (Rising-append 0 c.requests i
                (subst (λ t. Rising 0 t c.requests) (sym l.last) v.rising) (omega arith) n);
        front_fits = front c.requests v.front_fits;
        parsing_fits = parsing c.parsing v.parsing_fits;
        begun_bounded = v.begun_bounded;
      })
  where
    d : Conn
    d = record c { requests = c.requests ++ i ∷ [] }

    front : (q : List ℕ) → FrontFits c q → FrontFits d (q ++ i ∷ [])
    front [] f = l.fits
    front (j ∷ q) f = f

    parsing : (o : Option ℕ) → ParsingFits c o → ParsingFits d o
    parsing none f = tt
    parsing (some j) f = f

enqueue-heap : (i : ℕ) (c : Conn) (j : ℕ) → (enqueue i c).heap j ≡ c.heap j
unfolding enqueue
enqueue-heap i c j = ground arith

Rising-higher : (lo hi : ℕ) (q : List ℕ) → Rising lo hi q → Rising lo (suc hi) q
Rising-higher lo hi [] r = tt
Rising-higher lo hi (j ∷ q) r = (r.0, omega (arith, r.1), Rising-higher (suc j) hi q r.2)

new_request-IsOrdered : (c : Conn) → c.parsing ≡ none → IsOrdered c → IsOrdered (new_request c)
unfolding new_request new_server_request
new_request-IsOrdered c e v = record {
  in_order = v.in_order;
  rising = Rising-higher 0 c.next_id c.requests v.rising;
  front_fits = front c.requests v.rising v.front_fits;
  parsing_fits = subst (ParsingFits (new_request c)) (sym e) tt;
  begun_bounded = omega (arith, v.begun_bounded);
}
  where
    front : (q : List ℕ) → Rising 0 c.next_id q → FrontFits c q → FrontFits (new_request c) q
    front [] r f = tt
    front (j ∷ q) r f = ground arith

new_request-IsLast : (c : Conn) → IsOrdered c → IsLast (new_request c) c.next_id
unfolding new_request new_server_request
new_request-IsLast c v = record { last = refl; fits = ground arith }

start_parsing-IsOrdered :
    (o : Option ℕ) (c : Conn)
    → c.parsing ≡ o
    → IsOrdered c
    → IsOrdered (start_parsing o c) × IsLast (start_parsing o c) (parsed_id o c.next_id)
unfolding start_parsing
start_parsing-IsOrdered none c e v = (new_request-IsOrdered c e v, new_request-IsLast c v)
start_parsing-IsOrdered (some i) c e v =
    let f = subst (ParsingFits c) e v.parsing_fits in (v, record { last = f.0; fits = f.1 })

take_parsed-IsOrdered : (p : Parsed) (c : Conn) → IsOrdered c → IsOrdered (take_parsed p c)
unfolding take_parsed
take_parsed-IsOrdered p c v =
    put_request-IsOrdered i _ (enqueue i d)
      (λ h. subst (λ r. is_some r.response ≡ true) (enqueue-heap i d i) h)
      (enqueue-IsOrdered i d (record { last = s.1.last; fits = s.1.fits })
        (kept c1 i (is_done_state p.state) s.0 s.1))
  where
    i : ℕ
    i = parsed_id c.parsing c.next_id

    c1 : Conn
    c1 = start_parsing c.parsing (record c { idle_timer = stop_timer c.idle_timer })

    s : IsOrdered c1 × IsLast c1 i
    s =
        start_parsing-IsOrdered c.parsing (record c { idle_timer = stop_timer c.idle_timer }) refl
          (ground arith)

    d : Conn
    d = record c1 { parsing = if is_done_state p.state then none else some i }

    kept :
        (e : Conn) (j : ℕ) (b : Bool)
        → IsOrdered e
        → IsLast e j
        → IsOrdered (record e { parsing = if b then none else some j })
    kept e j true w l = ground arith
    kept e j false w l = ground arith

fresh_request-IsOrdered :
    (c : Conn) → c.parsing ≡ none → IsOrdered c → IsOrdered (enqueue c.next_id (new_request c))
fresh_request-IsOrdered c e v =
    enqueue-IsOrdered c.next_id (new_request c) (new_request-IsLast c v)
      (new_request-IsOrdered c e v)

module _ (page : ℕ → Chunk) (user : Event → Conn → List Call) where
  dispatch-IsOrdered : (e : Event) (c : Conn) → IsOrdered c → IsOrdered (dispatch page user e c)
  unfolding dispatch
  dispatch-IsOrdered e c v = calls-IsOrdered (user e (emit e c)) (emit e c) (ground arith)

  answer_error-IsOrdered :
      (i : ℕ) (s : Option ServerResponse) (c : Conn)
      → IsOrdered c
      → IsOrdered (answer_error page user i s c)
  unfolding answer_error
  answer_error-IsOrdered i none c v = respond-IsOrdered i _ c v
  answer_error-IsOrdered i (some s) c v = put_request-IsOrdered i _ c (λ _. refl) v

  request_error-IsOrdered :
      (i : ℕ) (err : Option ErrorCode) (c : Conn)
      → IsOrdered c
      → IsOrdered (request_error page user i err c)
  unfolding request_error
  request_error-IsOrdered i err c v =
      answer_error-IsOrdered i _ _ (dispatch-IsOrdered _ _ (ground arith))

  failing_request-IsOrdered :
      (b : Option ℕ) (c : Conn)
      → c.parsing ≡ none
      → IsOrdered c
      → IsOrdered (failing_request page user b c).0
  unfolding failing_request
  failing_request-IsOrdered none c e v = fresh_request-IsOrdered c e v
  failing_request-IsOrdered (some b) c e v =
      if_elim OrderedAfter (c.heap b).is_done _ _ (λ _. fresh_request-IsOrdered c e v) (λ _. v)

  on_read_error-IsOrdered :
      (err : ErrorCode) (c : Conn) → IsOrdered c → IsOrdered (on_read_error page user err c)
  unfolding on_read_error
  on_read_error-IsOrdered err c v = request_error-IsOrdered _ _ _ (
      put_request-IsOrdered _ _ _ (λ h. h)
        (failing_request-IsOrdered (back? c.requests) _ refl (ground arith)))

  route-IsOrdered : (i : ℕ) (c : Conn) → IsOrdered c → IsOrdered (route page user i c)
  unfolding route
  route-IsOrdered i c v =
      if_elim IsOrdered (c.heap i).routed _ _ (λ _. v)
        (λ _. dispatch-IsOrdered (route_event i) _ (put_request-IsOrdered i _ c (λ h. h) v))

  deliver-IsOrdered :
      (i : ℕ) (state : ParseState) (c : Conn)
      → IsOrdered c
      → IsOrdered (deliver page user i state c)
  unfolding deliver
  deliver-IsOrdered i state c v =
      if_elim IsOrdered (c.heap i).partial _ _ (λ _. dispatch-IsOrdered (partial_event i none) c v)
        (λ _.
          if_elim IsOrdered (is_done state) _ _
            (λ _. dispatch-IsOrdered (request_event i) _ (dispatch-IsOrdered (receive_event i) c v))
            (λ _. v))

  end_round-IsOrdered :
      (i : ℕ) (state : ParseState) (c : Conn)
      → IsOrdered c
      → IsOrdered (end_round page user i state c).0
  unfolding end_round
  end_round-IsOrdered i state c v =
      if_elim OrderedAfter (is_done state) _ _
        (λ _.
          if_elim OrderedAfter (c.heap i).finish_on_receive _ _ (λ _. finish_request-IsOrdered c v)
            (λ _.
              if_elim OrderedAfter (c.closing || not (c.heap i).keep_alive) _ _ (λ _. ground arith)
                (λ _. v)))
        (λ _. v)

  pub round-IsOrdered : (p : Parsed) (c : Conn) → IsOrdered c → IsOrdered (round page user p c).0
  unfolding round
  round-IsOrdered p c v =
      if_elim OrderedAfter (is_some p.error) _ _ (λ _. request_error-IsOrdered i p.error c1 w)
        (λ _.
          if_elim OrderedAfter (is_in_headers p.state) _ _ (λ _. w)
            (λ _.
              if_elim OrderedAfter
                (ltb 1 (length c1.requests) && is_exact (c1.heap i).upgrade_header) _ _
                (λ _. unread _ (request_error-IsOrdered i _ c1 w))
                (λ _.
                  end_round-IsOrdered i p.state _
                    (deliver-IsOrdered i p.state _ (route-IsOrdered i c1 w)))))
    where
      i : ℕ
      i = parsed_id c.parsing c.next_id

      c1 : Conn
      c1 = take_parsed p c

      w : IsOrdered c1
      w = take_parsed-IsOrdered p c v

      unread : (d : Conn) → IsOrdered d → IsOrdered (read_ignore d)
      unread d x = ground arith

  on_read-IsOrdered :
      (ps : List Parsed) (c : Conn) → IsOrdered c → IsOrdered (on_read page user ps c)
  unfolding on_read
  on_read-IsOrdered [] c v = v
  on_read-IsOrdered (p ∷ ps) c v =
      let w = round-IsOrdered p c v in
      if_elim IsOrdered (round page user p c).1 _ _ (λ _. on_read-IsOrdered ps _ w) (λ _. w)

  delivered-IsOrdered :
      (d : Delivery) (c : Conn) → IsOrdered c → IsOrdered (Loop.deliver page user d c)
  unfolding Loop.deliver on_connection on_write on_shutdown on_eof on_idle
  delivered-IsOrdered (data_read ps) c v = on_read-IsOrdered ps c v
  delivered-IsOrdered (read_failed err) c v = on_read_error-IsOrdered err c v
  delivered-IsOrdered (connected none) c v = v
  delivered-IsOrdered (connected (some err)) c v = close-IsOrdered _ c v
  delivered-IsOrdered (written none) c v = check_if_idle-IsOrdered _ (ground arith)
  delivered-IsOrdered (written (some err)) c v = close-IsOrdered _ _ (ground arith)
  delivered-IsOrdered shutdown_done c v = ground arith
  delivered-IsOrdered end_of_file c v = shutdown-IsOrdered _ c v
  delivered-IsOrdered idle_timeout c v =
      if_elim IsOrdered (is_active c.idle_timer) _ _
        (λ _.
          close-IsOrdered _ _
            (assert-IsOrdered (is_empty c.requests) timer_with_requests _ (ground arith)))
        (λ _. v)
  delivered-IsOrdered (called ks) c v = calls-IsOrdered ks c v

  pub step-IsOrdered : (d : Delivery) (c : Conn) → IsOrdered c → IsOrdered (step page user d c)
  unfolding step
  step-IsOrdered d c v =
      if_elim IsOrdered (delivers page user d c) _ _ (λ _. delivered-IsOrdered d c v) (λ _. v)

  run-IsOrdered : (ds : List Delivery) (c : Conn) → IsOrdered c → IsOrdered (run page user ds c)
  unfolding run
  run-IsOrdered [] c v = v
  run-IsOrdered (d ∷ ds) c v = run-IsOrdered ds (step page user d c) (step-IsOrdered d c v)

pub new_connection-IsOrdered : (timeout limit : ℕ) → IsOrdered (new_connection timeout limit)
unfolding new_connection
new_connection-IsOrdered timeout limit = ground arith

-- From a new connection on, whatever the stream and the timer deliver and whatever calls the user's
-- callbacks and code make, each response is begun after the responses to all earlier requests that
-- have one begun, and no response is begun twice.
pub run-InOrder :
    (page : ℕ → Chunk) (user : Event → Conn → List Call) (timeout limit : ℕ) (ds : List Delivery)
    → InOrder (run page user ds (new_connection timeout limit)).wire
run-InOrder page user timeout limit ds =
    (run-IsOrdered page user ds (new_connection timeout limit)
      (new_connection-IsOrdered timeout limit)).in_order
