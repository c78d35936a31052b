-- ===== src/Connection/Order/Calls.antt =====
-- Every call of the user keeps the order of the responses.
use uni_event_http.Base.{
  ℕ, ◌+◌, ◌≡◌, refl, Bool, true, false, Option, none, some, List, [], ◌∷◌, arith, sym, length, leb,
  u64, subst, if◌then◌else◌, is_some, not, ◌||◌, ◌&&◌, ◌==◌, if_elim, is_empty,
}
use uni_event_http.Connection.State.{
  Chunk, Conn, ServerResponse, put_response, assert, foreign_request, no_requests, is, front?,
  write, body_chunk, final_chunk, detached,
}
use uni_event_http.Connection.Respond
use uni_event_http.Connection.Respond.{
  graceful_stop, count_response, adjust_response, accept_response, write_if_front,
  response_completed,
}
use uni_event_http.Connection.Order.{IsOrdered, responded}
use uni_event_http.Connection.Order.Respond.{graceful_stop-IsOrdered}
use uni_event_http.Connection.Order.Finish.{
  put_request-IsOrdered, assert-IsOrdered, assert-heap, close-IsOrdered, shutdown-IsOrdered,
  cleanup_request-IsOrdered, finish_request-IsOrdered, write_next_response-IsOrdered,
}
use uni_event_http.Connection.Calls.{
  Call, respond, send_chunk, send_final_chunk, send_continue, redirect, drop, upgrade, partial,
  close, shutdown, call, calls, request_respond, request_send_continue, request_redirect,
  request_drop, request_upgrade, enable_partial, response_send_chunk, response_send_final_chunk,
  redirection, asks_upgrade,
}

abbrev pub OrderedAfter {ℓ} : {A : Type ℓ} → Conn × A → Type 0
OrderedAfter r = IsOrdered r.0

-- Whether a response brings the connection to its limit of requests.
abbrev pub at_limit : Conn → Bool
at_limit c =
    not (c.max_keepalive_requests == 0)
    && leb c.max_keepalive_requests (u64 (c.requests_processed + 1))
    && length c.requests == 1

pub count_response_lem :
    (c : Conn)
    → count_response c ≡ record c {
      requests_processed = u64 (c.requests_processed + 1);
      stopping = if at_limit c then true else c.stopping;
    }
unfolding count_response graceful_stop
count_response_lem c = ground arith

-- A response for which nothing was written, in the connection that counted it.
abbrev accepted : ℕ → ServerResponse → Conn → Conn
accepted i s c =
    let c' = count_response (put_response i s c) in put_response i (adjust_response c' s) c'

accepted-IsOrdered :
    (i : ℕ) (s : ServerResponse) (c : Conn) → IsOrdered c → IsOrdered (accepted i s c)
accepted-IsOrdered i s c v =
    put_request-IsOrdered i _ (count_response (put_response i s c)) (λ _. refl)
      (subst IsOrdered (sym (count_response_lem (put_response i s c)))
        (counted (put_response i s c) (put_request-IsOrdered i _ c (λ _. refl) v)))
  where
    counted :
        (d : Conn)
        → IsOrdered d
        → IsOrdered (record d {
          requests_processed = u64 (d.requests_processed + 1);
          stopping = if at_limit d then true else d.stopping;
        })
    counted d w = ground arith

accepted-wire : (i : ℕ) (s : ServerResponse) (c : Conn) → (accepted i s c).wire ≡ c.wire
accepted-wire i s c = rw (count_response_lem (put_response i s c))

accepted-requests : (i : ℕ) (s : ServerResponse) (c : Conn) → (accepted i s c).requests ≡ c.requests
accepted-requests i s c = rw (count_response_lem (put_response i s c))

write_if_front-IsOrdered :
    (i : ℕ) (q : List ℕ) (c d : Conn)
    → c.requests ≡ q
    → d.requests ≡ q
    → d.wire ≡ c.wire
    → responded c i ≡ false
    → IsOrdered c
    → IsOrdered d
    → IsOrdered (write_if_front i q d)
unfolding write_if_front
write_if_front-IsOrdered i [] c d e g w n v x = ground arith
write_if_front-IsOrdered i (f ∷ r) c d e g w n v x =
    if_elim IsOrdered (f == i) _ _ (λ h. write_next_response-IsOrdered d f r g (ground arith) x)
      (λ _. x)

accept_response-IsOrdered :
    (i : ℕ) (s : ServerResponse) (c : Conn)
    → responded c i ≡ false
    → IsOrdered c
    → IsOrdered (accept_response i s c)
unfolding accept_response
accept_response-IsOrdered i s c n v =
    write_if_front-IsOrdered i (accepted i s c).requests c (accepted i s c)
      (sym (accepted-requests i s c)) refl (accepted-wire i s c) n v (accepted-IsOrdered i s c v)

pub respond-IsOrdered :
    (i : ℕ) (s : ServerResponse) (c : Conn) → IsOrdered c → IsOrdered (Respond.respond i s c).0
unfolding Respond.respond
respond-IsOrdered i s c v =
    if_elim OrderedAfter (is_some (c.heap i).response) _ _ (λ _. w)
      (λ n. accept_response-IsOrdered i s c' (ap_heap n) w)
  where
    c' : Conn
    c' = assert (c.heap i).connection foreign_request c

    w : IsOrdered c'
    w = assert-IsOrdered (c.heap i).connection foreign_request c v

    ap_heap : responded c i ≡ false → responded c' i ≡ false
    ap_heap n = ground (arith, assert-heap (c.heap i).connection foreign_request c)

send_chunk-IsOrdered :
    (i : ℕ) (s : ServerResponse) (chunk : Chunk) (c : Conn)
    → IsOrdered c
    → IsOrdered (Respond.send_chunk i s chunk c)
unfolding Respond.send_chunk
send_chunk-IsOrdered i s chunk c v =
    if_elim IsOrdered (is_empty chunk) _ _ (λ _. w)
      (λ _.
        if_elim IsOrdered (is i (front? c.requests)) _ _ (λ _. chunk_written c' w)
          (λ _. put_request-IsOrdered i _ c' (λ _. refl) w))
  where
    c' : Conn
    c' = assert (not (is_empty c.requests)) no_requests c

    w : IsOrdered c'
    w = assert-IsOrdered (not (is_empty c.requests)) no_requests c v

    chunk_written : (d : Conn) → IsOrdered d → IsOrdered (write (body_chunk i chunk) d)
    chunk_written d x = ground arith

send_final_chunk-IsOrdered :
    (i : ℕ) (s : ServerResponse) (chunk : Chunk) (c : Conn)
    → IsOrdered c
    → IsOrdered (Respond.send_final_chunk i s chunk c)
unfolding Respond.send_final_chunk
send_final_chunk-IsOrdered i s chunk c v =
    if_elim IsOrdered (not (is i (front? c.requests))) _ _ (λ _. w)
      (λ _. finish_request-IsOrdered _ (chunk_written _ w))
  where
    c' : Conn
    c' = assert (not (is_empty c.requests)) no_requests c

    w : IsOrdered (put_response i (record s { completed = true }) c')
    w =
        put_request-IsOrdered i _ c' (λ _. refl)
          (assert-IsOrdered (not (is_empty c.requests)) no_requests c v)

    chunk_written : (d : Conn) → IsOrdered d → IsOrdered (write (final_chunk i chunk) d)
    chunk_written d x = ground arith

send_continue-IsOrdered : (i : ℕ) (c : Conn) → IsOrdered c → IsOrdered (Respond.send_continue i c).0
unfolding Respond.send_continue
send_continue-IsOrdered i c v = ground arith

upgrade-IsOrdered : (i : ℕ) (c : Conn) → IsOrdered c → IsOrdered (Respond.upgrade i c).0
unfolding Respond.upgrade
upgrade-IsOrdered i c v =
    if_elim OrderedAfter (not (length c.requests == 1 && is i (front? c.requests))) _ _ (λ _. v)
      (λ _. released _ (cleanup_request-IsOrdered _ (ground arith)))
  where
    released :
        (d : Conn) → IsOrdered d → IsOrdered (record d { in_server = false; stream = detached })
    released d x = ground arith

request_respond-IsOrdered :
    (i : ℕ) (s : ServerResponse) (c : Conn) → IsOrdered c → IsOrdered (request_respond i s c).0
unfolding request_respond
request_respond-IsOrdered i s c v =
    if_elim OrderedAfter (not (c.heap i).connection) _ _ (λ _. v) (λ _. respond-IsOrdered i s c v)

response_send_chunk-IsOrdered :
    (i : ℕ) (s : Option ServerResponse) (chunk : Chunk) (c : Conn)
    → IsOrdered c
    → IsOrdered (response_send_chunk i s chunk c).0
unfolding response_send_chunk
response_send_chunk-IsOrdered i none chunk c v = v
response_send_chunk-IsOrdered i (some s) chunk c v =
    if_elim OrderedAfter s.completed _ _ (λ _. v)
      (λ _.
        if_elim OrderedAfter (not (c.heap i).connection) _ _ (λ _. v)
          (λ _. send_chunk-IsOrdered i s chunk c v))

response_send_final_chunk-IsOrdered :
    (i : ℕ) (s : Option ServerResponse) (chunk : Chunk) (c : Conn)
    → IsOrdered c
    → IsOrdered (response_send_final_chunk i s chunk c).0
unfolding response_send_final_chunk
response_send_final_chunk-IsOrdered i none chunk c v = v
response_send_final_chunk-IsOrdered i (some s) chunk c v =
    if_elim OrderedAfter s.completed _ _ (λ _. v)
      (λ _.
        if_elim OrderedAfter (not (c.heap i).connection) _ _ (λ _. v)
          (λ _. send_final_chunk-IsOrdered i s chunk c v))

-- The order is kept by every call.
call-IsOrdered : (k : Call) (c : Conn) → IsOrdered c → IsOrdered (call k c)
unfolding call request_send_continue request_redirect request_drop request_upgrade enable_partial
call-IsOrdered (respond i s) c v = request_respond-IsOrdered i s c v
call-IsOrdered (send_chunk i chunk) c v =
    response_send_chunk-IsOrdered i (c.heap i).response chunk c v
call-IsOrdered (send_final_chunk i chunk) c v =
    response_send_final_chunk-IsOrdered i (c.heap i).response chunk c v
call-IsOrdered (send_continue i) c v =
    if_elim OrderedAfter (not (c.heap i).connection) _ _ (λ _. v)
      (λ _. send_continue-IsOrdered i c v)
call-IsOrdered (redirect i) c v = request_respond-IsOrdered i redirection c v
call-IsOrdered (drop i) c v =
    if_elim IsOrdered (not (c.heap i).connection || response_completed (c.heap i).response) _ _
      (λ _. v) (λ _. close-IsOrdered _ c v)
call-IsOrdered (upgrade i) c v =
    if_elim OrderedAfter (not (c.heap i).connection) _ _ (λ _. v)
      (λ _.
        if_elim OrderedAfter (not (asks_upgrade (c.heap i).upgrade_header)) _ _ (λ _. v)
          (λ _. upgrade-IsOrdered i c v))
call-IsOrdered (partial i) c v = put_request-IsOrdered i _ c (λ h. h) v
call-IsOrdered (close err) c v = close-IsOrdered err c v
call-IsOrdered (shutdown err) c v = shutdown-IsOrdered err c v
call-IsOrdered Call.graceful_stop c v = graceful_stop-IsOrdered c v

pub calls-IsOrdered : (ks : List Call) (c : Conn) → IsOrdered c → IsOrdered (calls ks c)
unfolding calls
calls-IsOrdered [] c v = v
calls-IsOrdered (k ∷ ks) c v = calls-IsOrdered ks (call k c) (call-IsOrdered k c v)
