-- ===== src/Connection/Frames/Held.antt =====
-- No call of the user takes the front from the request that ends when it is received.
use uni_event_http.Base.{
  ℕ, ◌≡◌, refl, true, false, Option, none, some, List, [], ◌∷◌, arith, not, ◌||◌, ◌&&◌, length,
  ◌==◌, if_elim, is_empty,
}
use uni_event_http.Error.{ErrorCode}
use uni_event_http.Connection.State.{Conn, ServerResponse, is, front?, null}
use uni_event_http.Connection.Respond
use uni_event_http.Connection.Respond.{
  count_response, adjust_response, accept_response, write_if_front, response_completed,
  cleanup_request, finish_request,
}
use uni_event_http.Connection.Calls.{
  Call, respond, send_chunk, send_final_chunk, send_continue, redirect, drop, upgrade, partial,
  close, shutdown, call, calls, request_respond, request_send_continue, request_redirect,
  request_drop, request_upgrade, enable_partial, response_send_chunk, response_send_final_chunk,
  redirection, asks_upgrade,
}
use uni_event_http.Connection.Frames.Steady.{close-Steady, shutdown-Steady, cleanup_request-Steady}
use uni_event_http.Connection.Frames.Awaited.{
  Awaits, Keeps, KeptAfter, kept-Awaits, unchanged-Keeps, shut-Keeps, put_request-Keeps,
  respond-Keeps, send_chunk-Keeps, send_final_chunk-Keeps, send_continue-Keeps,
}
use uni_event_http.Connection.Frames.Frame.{close-shut, shutdown-shut}

close-Keeps : (i : ℕ) (err : Option ErrorCode) (c : Conn) → Keeps i c (Respond.close err c)
close-Keeps i err c = shut-Keeps i c _ (close-Steady i err c) (close-shut err c)

shutdown-Keeps : (i : ℕ) (err : Option ErrorCode) (c : Conn) → Keeps i c (Respond.shutdown err c)
shutdown-Keeps i err c = shut-Keeps i c _ (shutdown-Steady i err c) (shutdown-shut err c)

graceful_stop-Keeps : (i : ℕ) (c : Conn) → Keeps i c (Respond.graceful_stop c)
unfolding Respond.graceful_stop
graceful_stop-Keeps i c =
    if_elim (Keeps i c) (is_empty c.requests) _ _ (λ _. shutdown-Keeps i _ c)
      (λ _. record {
        steady = record { stream = λ h. h; read = refl; ends = refl };
        kept = λ _ x. record { at_front = x.at_front; whole = x.whole };
      })

upgrade-Keeps : (i j : ℕ) (c : Conn) → Keeps i c (Respond.upgrade j c).0
unfolding Respond.upgrade
upgrade-Keeps i j c =
    if_elim (KeptAfter i c) (not (length c.requests == 1 && is j (front? c.requests))) _ _
      (λ _. unchanged-Keeps i c)
      (λ _.
        let s = cleanup_request-Steady i (record c { listening = false; idle_timer = null }) in
        shut-Keeps i c _
          (record { stream = λ h. absurd (ground (arith, h)); read = s.read; ends = s.ends }) refl)

call-Keeps : (i : ℕ) (k : Call) (c : Conn) → (c.heap i).is_done ≡ true → Keeps i c (call k c)
unfolding call request_respond request_send_continue request_redirect request_drop request_upgrade
    enable_partial response_send_chunk response_send_final_chunk
call-Keeps i (respond j s) c d =
    if_elim (KeptAfter i c) (not (c.heap j).connection) _ _ (λ _. unchanged-Keeps i c)
      (λ _. respond-Keeps i j s c d)
call-Keeps i (send_chunk j chunk) c d = by_response (c.heap j).response refl
  where
    by_response :
        (o : Option ServerResponse)
        → (c.heap j).response ≡ o
        → Keeps i c (response_send_chunk j o chunk c).0
    by_response none e = unchanged-Keeps i c
    by_response (some s) e =
        if_elim (KeptAfter i c) s.completed _ _ (λ _. unchanged-Keeps i c)
          (λ w.
            if_elim (KeptAfter i c) (not (c.heap j).connection) _ _ (λ _. unchanged-Keeps i c)
              (λ _. send_chunk-Keeps i j s chunk c e))
call-Keeps i (send_final_chunk j chunk) c d = by_response (c.heap j).response refl
  where
    by_response :
        (o : Option ServerResponse)
        → (c.heap j).response ≡ o
        → Keeps i c (response_send_final_chunk j o chunk c).0
    by_response none e = unchanged-Keeps i c
    by_response (some s) e =
        if_elim (KeptAfter i c) s.completed _ _ (λ _. unchanged-Keeps i c)
          (λ w.
            if_elim (KeptAfter i c) (not (c.heap j).connection) _ _ (λ _. unchanged-Keeps i c)
              (λ _. send_final_chunk-Keeps i j s chunk c e w d))
call-Keeps i (send_continue j) c d =
    if_elim (KeptAfter i c) (not (c.heap j).connection) _ _ (λ _. unchanged-Keeps i c)
      (λ _. send_continue-Keeps i j c)
call-Keeps i (redirect j) c d =
    if_elim (KeptAfter i c) (not (c.heap j).connection) _ _ (λ _. unchanged-Keeps i c)
      (λ _. respond-Keeps i j redirection c d)
call-Keeps i (drop j) c d =
    if_elim (Keeps i c) (not (c.heap j).connection || response_completed (c.heap j).response) _ _
      (λ _. unchanged-Keeps i c) (λ _. close-Keeps i _ c)
call-Keeps i (upgrade j) c d =
    if_elim (KeptAfter i c) (not (c.heap j).connection) _ _ (λ _. unchanged-Keeps i c)
      (λ _.
        if_elim (KeptAfter i c) (not (asks_upgrade (c.heap j).upgrade_header)) _ _
          (λ _. unchanged-Keeps i c) (λ _. upgrade-Keeps i j c))
call-Keeps i (partial j) c d = put_request-Keeps i j _ c refl refl (λ w. w)
call-Keeps i (close err) c d = close-Keeps i err c
call-Keeps i (shutdown err) c d = shutdown-Keeps i err c
call-Keeps i Call.graceful_stop c d = graceful_stop-Keeps i c

pub calls-Awaits : (i : ℕ) (ks : List Call) (c : Conn) → Awaits i c → Awaits i (calls ks c)
unfolding calls
calls-Awaits i [] c v = v
calls-Awaits i (k ∷ ks) c v =
    calls-Awaits i ks (call k c) (kept-Awaits i c (call k c) (call-Keeps i k c v.done) v)
