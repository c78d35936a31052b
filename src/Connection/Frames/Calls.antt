-- ===== src/Connection/Frames/Calls.antt =====
-- No call of the user mixes responses.
use uni_event_http.Base.{
  ℕ, ◌≡◌, refl, Bool, true, false, Option, none, some, List, [], ◌∷◌, ◌++◌, arith, sym, ap, ◌∙◌,
  subst, if◌then◌else◌, is_some, not, ◌||◌, ◌&&◌, length, ◌==◌, if_elim, is_empty,
}
use uni_event_http.Error.{continue_after_response}
use uni_event_http.Connection.State.{
  Chunk, Conn, ServerResponse, put_response, assert, no_requests, is, front?, write, body_chunk,
  continue_100, final_chunk,
}
use uni_event_http.Connection.Respond
use uni_event_http.Connection.Respond.{
  count_response, adjust_response, accept_response, write_if_front, response_completed,
  cleanup_request, finish_request,
}
use uni_event_http.Connection.Calls.{
  Call, respond, send_chunk, send_final_chunk, send_continue, redirect, drop, upgrade, partial,
  close, shutdown, call, calls, request_respond, request_send_continue, request_redirect,
  request_drop, request_upgrade, enable_partial, response_send_chunk, response_send_final_chunk,
  redirection, asks_upgrade,
}
use uni_event_http.Connection.Order.{responded}
use uni_event_http.Connection.Flow.{is_open}
use uni_event_http.Connection.Frames.{pending, IsHeld, IsFramed}
use uni_event_http.Connection.Frames.Frame.{
  assert-IsFramed, shutdown-IsFramed, close-IsFramed, shut-IsFramed, graceful_stop-IsFramed,
  written-IsFramed,
}
use uni_event_http.Connection.Frames.Respond.{finish_request-IsFramed}
use uni_event_http.Connection.Frames.Answered.{
  FramedAfter, put_request-IsFramed, Answered, given-IsFramed, respond-IsFramed, front-unfinished,
}

send_chunk-IsFramed :
    (i : ℕ) (s : ServerResponse) (chunk : Chunk) (c : Conn)
    → (c.heap i).response ≡ some s
    → s.completed ≡ false
    → IsFramed c
    → IsFramed (Respond.send_chunk i s chunk c)
unfolding Respond.send_chunk
send_chunk-IsFramed i s chunk c n w v = by_assert (not (is_empty c.requests))
  where
    sent :
        (d : Conn)
        → d.requests ≡ c.requests
        → (d.heap i).response ≡ some s
        → IsFramed d
        → IsFramed (
            if is_empty chunk
            then d
            else if is i (front? c.requests)
            then write (body_chunk i chunk) d
            else put_response i (record s { body = s.body ++ chunk ∷ [] }) d)
    sent d e n x =
        if_elim IsFramed (is_empty chunk) _ _ (λ _. x)
          (λ _.
            if_elim IsFramed (is i (front? c.requests)) _ _
              (λ f.
                written-IsFramed (body_chunk i chunk) d refl
                  (λ o t. (
                    front-unfinished i d (ap (λ q. is i (front? q)) e ∙ f) (ap is_some n)
                        (ap response_completed n ∙ w) x o,
                    t,
                  ))
                  x)
              (λ _.
                put_request-IsFramed i _ d refl refl (sym (ap is_some n))
                  (sym (ap response_completed n)) x))

    by_assert :
        (b : Bool)
        → let d = assert b no_requests c in
          IsFramed (
            if is_empty chunk
            then d
            else if is i (front? c.requests)
            then write (body_chunk i chunk) d
            else put_response i (record s { body = s.body ++ chunk ∷ [] }) d)
    by_assert true = sent c refl n v
    by_assert false =
        sent (assert false no_requests c) refl n (assert-IsFramed false no_requests c v)

-- The response that its final chunk ends.
completed-Answered :
    (i : ℕ) (s : ServerResponse) (c : Conn)
    → Answered i c (put_response i (record s { completed = true }) c)
completed-Answered i s c = record {
  requests = refl;
  stream = refl;
  wire = refl;
  response = λ j h. ground arith;
  more = λ w. ground arith;
  ends = λ j. ground arith;
  read = λ j. ground arith;
}

ended-IsFramed :
    (i : ℕ) (s : ServerResponse) (chunk : Chunk) (c : Conn)
    → is i (front? c.requests) ≡ true
    → (c.heap i).response ≡ some s
    → s.completed ≡ false
    → IsFramed c
    → IsFramed (write (final_chunk i chunk) (put_response i (record s { completed = true }) c))
ended-IsFramed i s chunk c f n w v = record {
  frames =
      λ h. (front-unfinished i c f (ap is_some n) (ap response_completed n ∙ w) v h, v.frames h);
  matches = λ h. by_queue c.requests f;
  holds = λ h j a r. by_equal h j a r (i == j) refl;
}
  where
    d : Conn
    d = write (final_chunk i chunk) (put_response i (record s { completed = true }) c)

    by_queue : (q : List ℕ) → is i (front? q) ≡ true → none ≡ pending d q
    by_queue [] f = refl
    by_queue (j ∷ q) f = ground (arith, f)

    by_equal :
        is_open c.stream ≡ true
        → (j : ℕ) → (d.heap j).finish_on_receive ≡ true
        → (d.heap j).is_done ≡ false
        → (b : Bool) → (i == j) ≡ b
        → IsHeld j d
    by_equal h j a r true b = record {
      at_front = subst (λ k. is k (front? c.requests) ≡ true) (ground (arith, b)) f;
      whole = ground (arith, b);
    }
    by_equal h j a r false b =
        let x = v.holds h j (ground (arith, a, b)) (ground (arith, r, b)) in
        record { at_front = x.at_front; whole = ground (arith, b, x.whole) }

send_final_chunk-IsFramed :
    (i : ℕ) (s : ServerResponse) (chunk : Chunk) (c : Conn)
    → (c.heap i).response ≡ some s
    → s.completed ≡ false
    → IsFramed c
    → IsFramed (Respond.send_final_chunk i s chunk c)
unfolding Respond.send_final_chunk
send_final_chunk-IsFramed i s chunk c n w v = by_assert (not (is_empty c.requests))
  where
    sent :
        (d : Conn)
        → d.requests ≡ c.requests
        → (d.heap i).response ≡ some s
        → IsFramed d
        → IsFramed (
            if not (is i (front? c.requests))
            then put_response i (record s { completed = true }) d
            else finish_request
                (write (final_chunk i chunk) (put_response i (record s { completed = true }) d)))
    sent d e n x =
        if_elim IsFramed (not (is i (front? c.requests))) _ _
          (λ f.
            given-IsFramed i d _ (completed-Answered i s d)
              (ap (λ q. is i (front? q)) e ∙ ground (arith, f)) x)
          (λ f.
            finish_request-IsFramed i _ (ap (λ q. is i (front? q)) e ∙ ground (arith, f))
              (ground arith)
              (ended-IsFramed i s chunk d (ap (λ q. is i (front? q)) e ∙ ground (arith, f)) n w x))

    by_assert :
        (b : Bool)
        → let d = put_response i (record s { completed = true }) (assert b no_requests c) in
          IsFramed (
            if not (is i (front? c.requests))
            then d
            else finish_request (write (final_chunk i chunk) d))
    by_assert true = sent c refl n v
    by_assert false =
        sent (assert false no_requests c) refl n (assert-IsFramed false no_requests c v)

send_continue-IsFramed : (i : ℕ) (c : Conn) → IsFramed c → IsFramed (Respond.send_continue i c).0
unfolding Respond.send_continue
send_continue-IsFramed i c v = by_assert (not (is_empty c.requests))
  where
    sent :
        (d : Conn)
        → d.requests ≡ c.requests
        → responded c i ≡ responded d i
        → IsFramed d
        → is i (front? c.requests) ≡ true
        → responded c i ≡ false
        → IsFramed (write (continue_100 i) d)
    sent d e r x f n =
        written-IsFramed (continue_100 i) d refl
          (λ o t. (x.matches o ∙ at_rest d.requests (ap (λ q. is i (front? q)) e ∙ f), t)) x
      where
        at_rest : (q : List ℕ) → is i (front? q) ≡ true → pending d q ≡ none
        at_rest [] f = refl
        at_rest (j ∷ q) f = ground (arith, f, r, n)

    written :
        (b : Bool)
        → is i (front? c.requests) ≡ true
        → responded c i ≡ false
        → IsFramed (write (continue_100 i) (assert b no_requests c))
    written true = sent c refl refl v
    written false =
        sent (assert false no_requests c) refl refl (assert-IsFramed false no_requests c v)

    by_assert :
        (b : Bool)
        → let c' = assert b no_requests c in
          FramedAfter (
            if not (is i (front? c.requests))
            then (c', none)
            else if not (c.heap i).expects_continue || (c.heap i).http_10
            then (c', none)
            else if is_some (c.heap i).response
            then (c', some continue_after_response)
            else (write (continue_100 i) c', none))
    by_assert b =
        let w = assert-IsFramed b no_requests c v in
        if_elim FramedAfter (not (is i (front? c.requests))) _ _ (λ _. w)
          (λ f.
            if_elim FramedAfter (not (c.heap i).expects_continue || (c.heap i).http_10) _ _ (λ _. w)
              (λ _.
                if_elim FramedAfter (is_some (c.heap i).response) _ _ (λ _. w)
                  (λ n. written b (ground (arith, f)) n)))

upgrade-IsFramed : (i : ℕ) (c : Conn) → IsFramed c → IsFramed (Respond.upgrade i c).0
unfolding Respond.upgrade
upgrade-IsFramed i c v =
    if_elim FramedAfter (not (length c.requests == 1 && is i (front? c.requests))) _ _ (λ _. v)
      (λ _. shut-IsFramed _ refl)

call-IsFramed : (k : Call) (c : Conn) → IsFramed c → IsFramed (call k c)
unfolding call request_respond request_send_continue request_redirect request_drop request_upgrade
    enable_partial response_send_chunk response_send_final_chunk
call-IsFramed (respond i s) c v =
    if_elim FramedAfter (not (c.heap i).connection) _ _ (λ _. v) (λ _. respond-IsFramed i s c v)
call-IsFramed (send_chunk i chunk) c v = by_response (c.heap i).response refl
  where
    by_response :
        (o : Option ServerResponse)
        → (c.heap i).response ≡ o
        → IsFramed (response_send_chunk i o chunk c).0
    by_response none e = v
    by_response (some s) e =
        if_elim FramedAfter s.completed _ _ (λ _. v)
          (λ w.
            if_elim FramedAfter (not (c.heap i).connection) _ _ (λ _. v)
              (λ _. send_chunk-IsFramed i s chunk c e w v))
call-IsFramed (send_final_chunk i chunk) c v = by_response (c.heap i).response refl
  where
    by_response :
        (o : Option ServerResponse)
        → (c.heap i).response ≡ o
        → IsFramed (response_send_final_chunk i o chunk c).0
    by_response none e = v
    by_response (some s) e =
        if_elim FramedAfter s.completed _ _ (λ _. v)
          (λ w.
            if_elim FramedAfter (not (c.heap i).connection) _ _ (λ _. v)
              (λ _. send_final_chunk-IsFramed i s chunk c e w v))
call-IsFramed (send_continue i) c v =
    if_elim FramedAfter (not (c.heap i).connection) _ _ (λ _. v) (λ _. send_continue-IsFramed i c v)
call-IsFramed (redirect i) c v =
    if_elim FramedAfter (not (c.heap i).connection) _ _ (λ _. v)
      (λ _. respond-IsFramed i redirection c v)
call-IsFramed (drop i) c v =
    if_elim IsFramed (not (c.heap i).connection || response_completed (c.heap i).response) _ _
      (λ _. v) (λ _. close-IsFramed _ c)
call-IsFramed (upgrade i) c v =
    if_elim FramedAfter (not (c.heap i).connection) _ _ (λ _. v)
      (λ _.
        if_elim FramedAfter (not (asks_upgrade (c.heap i).upgrade_header)) _ _ (λ _. v)
          (λ _. upgrade-IsFramed i c v))
call-IsFramed (partial i) c v = put_request-IsFramed i _ c refl refl refl refl v
call-IsFramed (close err) c v = close-IsFramed err c
call-IsFramed (shutdown err) c v = shutdown-IsFramed err c
call-IsFramed Call.graceful_stop c v = graceful_stop-IsFramed c v

pub calls-IsFramed : (ks : List Call) (c : Conn) → IsFramed c → IsFramed (calls ks c)
unfolding calls
calls-IsFramed [] c v = v
calls-IsFramed (k ∷ ks) c v = calls-IsFramed ks (call k c) (call-IsFramed k c v)
