-- ===== src/Connection/Limits.antt =====
-- The requests that one connection serves, and what ends it: the counter in `respond`, and the
-- assertions and the timer of `finish_request`.
use uni_event_http.Base.{
  ℕ, ◌≡◌, refl, Bool, true, false, not, Option, none, some, List, [], ◌∷◌, ◌∙◌, ap, sym, subst,
  ◌==◌, arith, ◌||◌, is_some, if_elim,
}
use uni_event_http.Error.{ErrorCode, HttpError}
use uni_event_http.Connection.State.{
  Chunk, ServerResponse, Output, head, body_chunk, Conn, null, requests_left, null_timer,
  not_completed, Fault, assert, write, foreign_request, front?, is, shut, put_response,
}
use uni_event_http.Connection.Respond
use uni_event_http.Connection.Respond.{
  finish_request, finish_front, after_cleanup, cleanup_request, pop_and_finish, finish_next,
  check_if_idle, start_idle_timer, shutdown, do_close, drop_requests, drop_each, response_completed,
  count_response, adjust_response, accept_response, write_if_front, write_next_response, write_next,
  write_response, start_response, write_head, end_pipeline, holds_chunks, prepare, write_chunks,
  graceful_stop,
}
use uni_event_http.Connection.Order.Calls.{at_limit, count_response_lem}
use uni_event_http.Connection.Drop.{drop_requests_lem, emptied}

-- The last request in the queue is answered in full and received in full, and the connection stays.
pub record IsLastAnswered (i : ℕ) (c : Conn) : Type 0 where
  pub queue : c.requests ≡ i ∷ []
  pub answered : response_completed (c.heap i).response ≡ true
  pub received : (c.heap i).is_done ≡ true
  pub stays : (c.closing || c.stopping) ≡ false

-- Finishing the only request, answered and received in full, on a connection that stays, follows the
-- null pointer of the idle timer exactly when there is no timer, and does nothing else that is
-- undefined.
pub finish_request_faults :
    (i : ℕ) (c : Conn)
    → IsLastAnswered i c
    → (finish_request c).faults
      ≡ (elim c.idle_timer [ null ↦ null_timer ∷ c.faults | _ ↦ c.faults ])
unfolding finish_request finish_front after_cleanup cleanup_request pop_and_finish finish_next
    check_if_idle start_idle_timer
finish_request_faults i c h = rw h.queue (ground (arith, h.answered, h.received, h.stays))

-- If a connection that is being stopped finishes its front request, answered and received in full,
-- while others are queued behind it, the assertion that none is left fails, the others are dropped
-- with no answer written, and the stream is shut down.
pub stopping_drops_pipeline :
    (i j : ℕ) (rest : List ℕ) (c : Conn)
    → c.requests ≡ i ∷ j ∷ rest
    → response_completed (c.heap i).response ≡ true
    → (c.heap i).is_done ≡ true
    → c.stopping ≡ true
    → let d = finish_request c in
      (d.faults ≡ requests_left ∷ c.faults)
      × (d.requests ≡ [])
      × (d.wire ≡ c.wire)
      × (d.stream ≡ shut)
unfolding finish_request finish_front after_cleanup cleanup_request pop_and_finish shutdown do_close
    emptied
stopping_drops_pipeline i j rest c e a r st = rw (e, drop_requests_lem) (ground arith)

-- The keep-alive of the last response whose head was written.
pub last_keep_alive : List Output → Option Bool
last_keep_alive [] = none
last_keep_alive (head i s ∷ w) = some s.keep_alive
last_keep_alive (_ ∷ w) = last_keep_alive w

-- The final chunk of a response whose request is not at the front of the queue is not kept: whatever
-- its bytes, the connection is left the same.
pub send_final_chunk_queued :
    (i : ℕ) (s : ServerResponse) (chunk chunk' : Chunk) (c : Conn)
    → is i (front? c.requests) ≡ false
    → Respond.send_final_chunk i s chunk c ≡ Respond.send_final_chunk i s chunk' c
unfolding Respond.send_final_chunk
send_final_chunk_queued i s chunk chunk' c e = rw e refl

-- The connection is closing, and the last head that was written is without keep-alive.
abbrev EndsConnection : Conn → Type 0
EndsConnection d = (d.closing ≡ true) × (last_keep_alive d.wire ≡ some false)

start_response-EndsConnection :
    (i : ℕ) (s : ServerResponse) (c : Conn)
    → s.keep_alive ≡ false
    → EndsConnection (start_response i [] s c)
unfolding start_response write_head end_pipeline prepare last_keep_alive
start_response-EndsConnection i s c k = ground arith

assert-EndsConnection :
    (b : Bool) (f : Fault) (c : Conn) → EndsConnection c → EndsConnection (assert b f c)
assert-EndsConnection true f c v = v
assert-EndsConnection false f c v = v

shutdown-EndsConnection :
    (err : Option ErrorCode) (c : Conn) → EndsConnection c → EndsConnection (shutdown err c)
unfolding shutdown do_close emptied
shutdown-EndsConnection err c v = rw drop_requests_lem v

after_cleanup-EndsConnection :
    (next : Conn → Conn) (c : Conn) → EndsConnection c → EndsConnection (after_cleanup next c)
unfolding after_cleanup
after_cleanup-EndsConnection next c v =
    if_elim EndsConnection (c.closing || c.stopping) _ _
      (λ _. shutdown-EndsConnection none _ (assert-EndsConnection _ requests_left c v))
      (λ n. absurd (ground (arith, n, v.0)))

cleanup_request-EndsConnection : (c : Conn) → EndsConnection c → EndsConnection (cleanup_request c)
unfolding cleanup_request
cleanup_request-EndsConnection c v = by_queue c.requests
  where
    by_queue : (q : List ℕ) → EndsConnection (pop_and_finish q c)
    by_queue [] = unfold pop_and_finish in v
    by_queue (i ∷ r) = unfold pop_and_finish in v

finish_front-EndsConnection :
    (next : Conn → Conn) (q : List ℕ) (c : Conn)
    → EndsConnection c
    → EndsConnection (finish_front next q c)
unfolding finish_front
finish_front-EndsConnection next [] c v = v
finish_front-EndsConnection next (i ∷ r) c v =
    let w = assert-EndsConnection (response_completed (c.heap i).response) not_completed c v in
    if_elim EndsConnection (not (c.heap i).is_done) _ _ (λ _. w)
      (λ _. after_cleanup-EndsConnection next _ (cleanup_request-EndsConnection _ w))

write_chunks-EndsConnection :
    (i : ℕ) (parts : List Chunk) (c : Conn)
    → EndsConnection c
    → EndsConnection (write_chunks i parts c)
unfolding write_chunks last_keep_alive
write_chunks-EndsConnection i [] c v = v
write_chunks-EndsConnection i (b ∷ parts) c v =
    write_chunks-EndsConnection i parts (write (body_chunk i b) c) v

write_response-EndsConnection :
    (next : Conn → Conn) (i : ℕ) (s : ServerResponse) (c : Conn)
    → s.keep_alive ≡ false
    → EndsConnection (write_response next i [] (some s) c)
unfolding write_response
write_response-EndsConnection next i s c k =
    let v = start_response-EndsConnection i s c k in
    if_elim EndsConnection s.completed _ _ (λ _. finish_front-EndsConnection next _ _ v)
      (λ _.
        if_elim EndsConnection (holds_chunks s) _ _ (λ _. write_chunks-EndsConnection i s.body _ v)
          (λ _. v))

write_next_response-EndsConnection :
    (i : ℕ) (s : ServerResponse) (c : Conn)
    → c.requests ≡ i ∷ []
    → (c.heap i).response ≡ some s
    → s.keep_alive ≡ false
    → EndsConnection (write_next_response c)
unfolding write_next_response write_next
write_next_response-EndsConnection i s c e r k =
    subst (λ q. EndsConnection (write_next q c)) (sym e)
      (subst (λ o. EndsConnection (write_response (write_next []) i [] o c)) (sym r)
        (write_response-EndsConnection (write_next []) i s c k))

write_if_front-EndsConnection :
    (i : ℕ) (q : List ℕ) (s : ServerResponse) (c : Conn)
    → q ≡ i ∷ []
    → c.requests ≡ i ∷ []
    → (c.heap i).response ≡ some s
    → s.keep_alive ≡ false
    → EndsConnection (write_if_front i q c)
unfolding write_if_front
write_if_front-EndsConnection i q s c e f r k =
    subst (λ z. EndsConnection (write_if_front i z c)) (sym e)
      (if_elim EndsConnection (i == i) _ _ (λ _. write_next_response-EndsConnection i s c f r k)
        (λ n. absurd (ground (arith, n))))

accept_response-EndsConnection :
    (i : ℕ) (s : ServerResponse) (c : Conn)
    → c.requests ≡ i ∷ []
    → at_limit c ≡ true
    → EndsConnection (accept_response i s c)
unfolding accept_response
accept_response-EndsConnection i s c e l =
    write_if_front-EndsConnection i d.requests (adjust_response d s)
      (put_response i (adjust_response d s) d) f f (unfold_self i) (stops d g)
  where
    d : Conn
    d = count_response (put_response i s c)

    f : d.requests ≡ i ∷ []
    f = ap (λ (z : Conn). z.requests) (count_response_lem (put_response i s c)) ∙ e

    g : d.stopping ≡ true
    g = ap (λ (z : Conn). z.stopping) (count_response_lem (put_response i s c)) ∙ ground (arith, l)

    unfold_self :
        (j : ℕ)
        → ((put_response j (adjust_response d s) d).heap j).response ≡ some (adjust_response d s)
    unfold_self j = ground arith

    stops : (z : Conn) → z.stopping ≡ true → (adjust_response z s).keep_alive ≡ false
    stops z h = unfold adjust_response in ground arith

-- The answer to the only request in the queue, not answered before, that brings a connection to its
-- limit of requests is the last: it goes out without keep-alive, and the connection is closing.
pub respond-at_limit :
    (i : ℕ) (s : ServerResponse) (c : Conn)
    → c.requests ≡ i ∷ []
    → (c.heap i).response ≡ none
    → at_limit c ≡ true
    → let d = (Respond.respond i s c).0 in
      (d.closing ≡ true) × (last_keep_alive d.wire ≡ some false)
unfolding Respond.respond
respond-at_limit i s c e n l =
    if_elim (λ (r : Conn × Option HttpError). EndsConnection r.0) (is_some (c.heap i).response) _ _
      (λ h. absurd (ground (arith, n, h))) (λ _. asserted (c.heap i).connection)
  where
    asserted : (b : Bool) → EndsConnection (accept_response i s (assert b foreign_request c))
    asserted true = accept_response-EndsConnection i s c e l
    asserted false = accept_response-EndsConnection i s (assert false foreign_request c) e l
