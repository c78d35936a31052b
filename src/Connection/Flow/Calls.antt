-- ===== src/Connection/Flow/Calls.antt =====
-- No call of the user holds a response back.
use uni_event_http.Base.{
  ℕ, suc, ◌≡◌, refl, Bool, true, false, Option, none, some, List, [], ◌∷◌, ◌++◌, arith, sym, ap,
  ◌∙◌, subst, if◌then◌else◌, is_some, not, ◌||◌, ◌&&◌, length, ◌==◌, if_elim, is_empty,
}
use uni_event_http.Connection.State.{
  Chunk, Conn, ServerResponse, ServerRequest, put_request, put_response, assert, foreign_request,
  no_requests, is, front?, write, body_chunk, continue_100, final_chunk, detached, null,
}
use uni_event_http.Connection.Respond
use uni_event_http.Connection.Respond.{
  count_response, adjust_response, accept_response, write_if_front, response_completed,
  cleanup_request,
}
use uni_event_http.Connection.Calls.{
  Call, respond, send_chunk, send_final_chunk, send_continue, redirect, drop, upgrade, partial,
  close, shutdown, call, calls, request_respond, request_send_continue, request_redirect,
  request_drop, request_upgrade, enable_partial, response_send_chunk, response_send_final_chunk,
  redirection, asks_upgrade,
}
use uni_event_http.Connection.Order.{begun, responded}
use uni_event_http.Connection.Order.Calls.{count_response_lem}
use uni_event_http.Connection.Flow.{is_open, InTurn, FrontBegun, IsReady, IsFlowing}
use uni_event_http.Connection.Flow.Frame.{
  shut-IsFlowing, same-ParsingUnread, same-IsReady, same-IsFlowing, assert-IsFlowing,
  written-IsFlowing, graceful_stop-IsFlowing, shutdown-IsFlowing, close-IsFlowing,
}
use uni_event_http.Connection.Flow.Finish.{cleanup_request-ParsingUnread}
use uni_event_http.Connection.Flow.Write.{finish_request-IsFlowing, write_next_response-IsFlowing}

abbrev pub FlowingAfter {ℓ} : {A : Type ℓ} → Conn × A → Type 0
FlowingAfter r = IsFlowing r.0

-- A request that has a response as it did before, and is received as it was.
pub put_request-IsFlowing :
    (i : ℕ) (r : ServerRequest) (c : Conn)
    → r.is_done ≡ (c.heap i).is_done
    → is_some r.response ≡ responded c i
    → IsFlowing c
    → IsFlowing (put_request i r c)
put_request-IsFlowing i r c d s v =
    same-IsFlowing c (put_request i r c) refl refl refl refl refl (λ j. ground arith)
      (λ j. ground arith) v

-- A response for which nothing was written, in the connection that counted it.
abbrev accepted : ℕ → ServerResponse → Conn → Conn
accepted i s c =
    let c' = count_response (put_response i s c) in put_response i (adjust_response c' s) c'

-- Whatever changed but the response to `i`.
record SameBut (i : ℕ) (c d : Conn) : Type 0 where
  pub requests : d.requests ≡ c.requests
  pub stream : d.stream ≡ c.stream
  pub closing : d.closing ≡ c.closing
  pub parsing : d.parsing ≡ c.parsing
  pub wire : d.wire ≡ c.wire
  pub read : (j : ℕ) → (d.heap j).is_done ≡ (c.heap j).is_done
  pub responses : (j : ℕ) → (i == j) ≡ false → responded d j ≡ responded c j

accepted-SameBut : (i : ℕ) (s : ServerResponse) (c : Conn) → SameBut i c (accepted i s c)
accepted-SameBut i s c =
    subst (λ e. SameBut i c (put_response i (adjust_response e s) e))
      (sym (count_response_lem (put_response i s c)))
      (record {
        requests = refl;
        stream = refl;
        closing = refl;
        parsing = refl;
        wire = refl;
        read = λ j. ground arith;
        responses = λ j h. ground arith;
      })

write_if_front-IsFlowing :
    (i : ℕ) (q : List ℕ) (c d : Conn)
    → d.requests ≡ q
    → SameBut i c d
    → IsFlowing c
    → IsFlowing (write_if_front i q d)
unfolding write_if_front
write_if_front-IsFlowing i q c d e s v = by_queue q e
  where
    ready : IsReady d
    ready =
        same-IsReady c d s.requests s.stream s.closing s.parsing
          (λ _ x. subst InTurn (sym s.wire) x) s.read v.ready

    by_queue : (q : List ℕ) → d.requests ≡ q → IsFlowing (write_if_front i q d)
    by_queue [] e =
        assert-IsFlowing false _ d
          (record { ready = ready; front_begun = λ h. subst (FrontBegun d) (sym e) tt })
    by_queue (f ∷ r) e =
        if_elim IsFlowing (f == i) _ _ (λ _. write_next_response-IsFlowing d ready)
          (λ n. record {
            ready = ready;
            front_begun = λ h. subst (FrontBegun d) (sym e) (λ a.
                ap begun s.wire
                ∙ subst (FrontBegun c) (sym s.requests ∙ e)
                    (v.front_begun (ap is_open (sym s.stream) ∙ h))
                    (sym (s.responses f (ground (arith, n))) ∙ a));
          })

accept_response-IsFlowing :
    (i : ℕ) (s : ServerResponse) (c : Conn) → IsFlowing c → IsFlowing (accept_response i s c)
unfolding accept_response
accept_response-IsFlowing i s c v =
    write_if_front-IsFlowing i (accepted i s c).requests c (accepted i s c) refl
      (accepted-SameBut i s c) v

pub respond-IsFlowing :
    (i : ℕ) (s : ServerResponse) (c : Conn) → IsFlowing c → IsFlowing (Respond.respond i s c).0
unfolding Respond.respond
respond-IsFlowing i s c v =
    let w = assert-IsFlowing (c.heap i).connection foreign_request c v in
    if_elim FlowingAfter (is_some (c.heap i).response) _ _ (λ _. w)
      (λ n. accept_response-IsFlowing i s _ w)

front-begun :
    (i : ℕ) (c : Conn)
    → is i (front? c.requests) ≡ true
    → responded c i ≡ true
    → FrontBegun c c.requests
    → begun c.wire ≡ suc i
front-begun i c f r = by_queue c.requests f
  where
    by_queue : (q : List ℕ) → is i (front? q) ≡ true → FrontBegun c q → begun c.wire ≡ suc i
    by_queue [] f g = absurd (ground (arith, f))
    by_queue (j ∷ q) f g = ground (arith, f, g, r)

assert-requests : (b : Bool) (c : Conn) → (assert b no_requests c).requests ≡ c.requests
assert-requests true c = refl
assert-requests false c = refl

put-responded : (i : ℕ) (s : ServerResponse) (c : Conn) → responded (put_response i s c) i ≡ true
put-responded i s c = ground arith

send_chunk-IsFlowing :
    (i : ℕ) (s : ServerResponse) (chunk : Chunk) (c : Conn)
    → responded c i ≡ true
    → IsFlowing c
    → IsFlowing (Respond.send_chunk i s chunk c)
unfolding Respond.send_chunk
send_chunk-IsFlowing i s chunk c h v = by_assert (not (is_empty c.requests))
  where
    sent :
        (d : Conn)
        → d.requests ≡ c.requests
        → responded d i ≡ true
        → IsFlowing d
        → IsFlowing (
            if is_empty chunk
            then d
            else if is i (front? c.requests)
            then write (body_chunk i chunk) d
            else put_request i
                (record (d.heap i) { response = some (record s { body = s.body ++ chunk ∷ [] }) })
                d)
    sent d e r x =
        if_elim IsFlowing (is_empty chunk) _ _ (λ _. x)
          (λ _.
            if_elim IsFlowing (is i (front? c.requests)) _ _
              (λ f.
                written-IsFlowing (body_chunk i chunk) d refl
                  (λ o t.
                    (front-begun i d (ap (λ q. is i (front? q)) e ∙ f) r (x.front_begun o), t))
                  x)
              (λ _. put_request-IsFlowing i _ d refl (sym r) x))

    by_assert :
        (b : Bool)
        → let d = assert b no_requests c in
          IsFlowing (
            if is_empty chunk
            then d
            else if is i (front? c.requests)
            then write (body_chunk i chunk) d
            else put_response i (record s { body = s.body ++ chunk ∷ [] }) d)
    by_assert true = sent c refl h v
    by_assert false =
        sent (assert false no_requests c) refl h (assert-IsFlowing false no_requests c v)

send_final_chunk-IsFlowing :
    (i : ℕ) (s : ServerResponse) (chunk : Chunk) (c : Conn)
    → responded c i ≡ true
    → IsFlowing c
    → IsFlowing (Respond.send_final_chunk i s chunk c)
unfolding Respond.send_final_chunk
send_final_chunk-IsFlowing i s chunk c h v =
    if_elim IsFlowing (not (is i (front? c.requests))) _ _ (λ _. w)
      (λ f. finish_request-IsFlowing _ (
        written-IsFlowing (final_chunk i chunk) _ refl
          (λ o t. (
            front-begun i (put_response i (record s { completed = true }) c')
                (ap (λ q. is i (front? q)) (assert-requests (not (is_empty c.requests)) c)
                  ∙ ground (arith, f))
                (put-responded i (record s { completed = true }) c') (w.front_begun o),
            t,
          ))
          w))
  where
    c' : Conn
    c' = assert (not (is_empty c.requests)) no_requests c

    completed :
        (b : Bool)
        → IsFlowing (put_response i (record s { completed = true }) (assert b no_requests c))
    completed true = put_request-IsFlowing i _ c refl (sym h) v
    completed false =
        put_request-IsFlowing i _ (assert false no_requests c) refl (sym h)
          (assert-IsFlowing false no_requests c v)

    w : IsFlowing (put_response i (record s { completed = true }) c')
    w = completed (not (is_empty c.requests))

send_continue-IsFlowing : (i : ℕ) (c : Conn) → IsFlowing c → IsFlowing (Respond.send_continue i c).0
unfolding Respond.send_continue
send_continue-IsFlowing i c v =
    let w = assert-IsFlowing (not (is_empty c.requests)) no_requests c v in
    if_elim FlowingAfter (not (is i (front? c.requests))) _ _ (λ _. w)
      (λ _.
        if_elim FlowingAfter (not (c.heap i).expects_continue || (c.heap i).http_10) _ _ (λ _. w)
          (λ _.
            if_elim FlowingAfter (is_some (c.heap i).response) _ _ (λ _. w)
              (λ _. written-IsFlowing (continue_100 i) _ refl (λ _ t. t) w)))

upgrade-IsFlowing : (i : ℕ) (c : Conn) → IsFlowing c → IsFlowing (Respond.upgrade i c).0
unfolding Respond.upgrade
upgrade-IsFlowing i c v =
    let c' = record c { listening = false; idle_timer = null } in
    let d = record (cleanup_request c') { in_server = false; stream = detached } in
    let u =
      cleanup_request-ParsingUnread c'
        (same-ParsingUnread c c' refl (λ j. refl) v.ready.parsing_unread) in
    if_elim FlowingAfter (not (length c.requests == 1 && is i (front? c.requests))) _ _ (λ _. v)
      (λ _. shut-IsFlowing d (same-ParsingUnread (cleanup_request c') d refl (λ j. refl) u) refl)

-- No call holds a response back.
call-IsFlowing : (k : Call) (c : Conn) → IsFlowing c → IsFlowing (call k c)
unfolding call request_respond request_send_continue request_redirect request_drop request_upgrade
    enable_partial response_send_chunk response_send_final_chunk
call-IsFlowing (respond i s) c v =
    if_elim FlowingAfter (not (c.heap i).connection) _ _ (λ _. v) (λ _. respond-IsFlowing i s c v)
call-IsFlowing (send_chunk i chunk) c v = by_response (c.heap i).response refl
  where
    by_response :
        (o : Option ServerResponse)
        → (c.heap i).response ≡ o
        → IsFlowing (response_send_chunk i o chunk c).0
    by_response none e = v
    by_response (some s) e =
        if_elim FlowingAfter s.completed _ _ (λ _. v)
          (λ _.
            if_elim FlowingAfter (not (c.heap i).connection) _ _ (λ _. v)
              (λ _. send_chunk-IsFlowing i s chunk c (ap is_some e) v))
call-IsFlowing (send_final_chunk i chunk) c v = by_response (c.heap i).response refl
  where
    by_response :
        (o : Option ServerResponse)
        → (c.heap i).response ≡ o
        → IsFlowing (response_send_final_chunk i o chunk c).0
    by_response none e = v
    by_response (some s) e =
        if_elim FlowingAfter s.completed _ _ (λ _. v)
          (λ _.
            if_elim FlowingAfter (not (c.heap i).connection) _ _ (λ _. v)
              (λ _. send_final_chunk-IsFlowing i s chunk c (ap is_some e) v))
call-IsFlowing (send_continue i) c v =
    if_elim FlowingAfter (not (c.heap i).connection) _ _ (λ _. v)
      (λ _. send_continue-IsFlowing i c v)
call-IsFlowing (redirect i) c v =
    if_elim FlowingAfter (not (c.heap i).connection) _ _ (λ _. v)
      (λ _. respond-IsFlowing i redirection c v)
call-IsFlowing (drop i) c v =
    if_elim IsFlowing (not (c.heap i).connection || response_completed (c.heap i).response) _ _
      (λ _. v) (λ _. close-IsFlowing _ c v.ready.parsing_unread)
call-IsFlowing (upgrade i) c v =
    if_elim FlowingAfter (not (c.heap i).connection) _ _ (λ _. v)
      (λ _.
        if_elim FlowingAfter (not (asks_upgrade (c.heap i).upgrade_header)) _ _ (λ _. v)
          (λ _. upgrade-IsFlowing i c v))
call-IsFlowing (partial i) c v = put_request-IsFlowing i _ c refl refl v
call-IsFlowing (close err) c v = close-IsFlowing err c v.ready.parsing_unread
call-IsFlowing (shutdown err) c v = shutdown-IsFlowing err c v.ready.parsing_unread
call-IsFlowing Call.graceful_stop c v = graceful_stop-IsFlowing c v

pub calls-IsFlowing : (ks : List Call) (c : Conn) → IsFlowing c → IsFlowing (calls ks c)
unfolding calls
calls-IsFlowing [] c v = v
calls-IsFlowing (k ∷ ks) c v = calls-IsFlowing ks (call k c) (call-IsFlowing k c v)
