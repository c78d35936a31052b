-- ===== src/Connection/Stuck.antt =====
-- A read error after the answer: nothing finishes the request that `on_read_error` marks as received.
use uni_event_http.Base.{
  ℕ, ◌≡◌, refl, true, false, Option, none, some, List, [], ◌∷◌, ◌∙◌, ap, if_elim, is_empty, ◌&&◌,
  sym, subst, is_some, arith, if◌then◌else◌,
}
use uni_event_http.Error.{ErrorCode}
use uni_event_http.Connection.State.{
  Chunk, Event, partial_event, error_event, Output, StreamState, Timer, Conn, ServerResponse, emit,
  read_ignore, put_request, is_active, stop_timer, back?,
}
use uni_event_http.Connection.Respond
use uni_event_http.Connection.Respond.{response_completed, check_if_idle}
use uni_event_http.Connection.Calls.{
  Call, drop, respond, send_chunk, send_final_chunk, call, calls, request_respond, request_drop,
  response_send_chunk, response_send_final_chunk,
}
use uni_event_http.Connection.Read.{
  request_error, dispatch, answer_error, failing_request, on_read_error, on_write,
}
use uni_event_http.Connection.Loop
use uni_event_http.Connection.Loop.{
  Delivery, data_read, read_failed, written, idle_timeout, called, step, run,
}

-- The only request has its whole response, and nothing is read any more.
record IsStuck (i : ℕ) (w : List Output) (t : StreamState) (c : Conn) : Type 0 where
  queue : c.requests ≡ i ∷ []
  connected : (c.heap i).connection ≡ true
  answered : response_completed (c.heap i).response ≡ true
  deaf : c.reading ≡ false
  untimed : is_active c.idle_timer ≡ false
  wire : c.wire ≡ w
  stream : c.stream ≡ t

-- The calls by which the user answers request `i`, or gives it up.
abbrev Answers : ℕ → List Call → Type 0
Answers i [] = Unit {0}
Answers i (respond j s ∷ ks) = (j ≡ i) × Answers i ks
Answers i (send_chunk j b ∷ ks) = (j ≡ i) × Answers i ks
Answers i (send_final_chunk j b ∷ ks) = (j ≡ i) × Answers i ks
Answers i (drop j ∷ ks) = (j ≡ i) × Answers i ks
Answers i (k ∷ ks) = ⊥

-- What the event loop delivers as long as the peer keeps the connection open, and those calls.
abbrev pub Waits : ℕ → List Delivery → Type 0
Waits i [] = Unit {0}
Waits i (data_read ps ∷ ds) = Waits i ds
Waits i (read_failed err ∷ ds) = Waits i ds
Waits i (written none ∷ ds) = Waits i ds
Waits i (idle_timeout ∷ ds) = Waits i ds
Waits i (called ks ∷ ds) = Answers i ks × Waits i ds
Waits i (d ∷ ds) = ⊥

completed-is_some : (o : Option ServerResponse) → response_completed o ≡ true → is_some o ≡ true
completed-is_some none h = h
completed-is_some (some s) h = refl

module _ (i : ℕ) (w : List Output) (t : StreamState) where
  respond-stuck :
      (j : ℕ) (s : ServerResponse) (c : Conn)
      → j ≡ i
      → IsStuck i w t c
      → (request_respond j s c).0 ≡ c
  unfolding request_respond Respond.respond
  respond-stuck j s c e h = rw (ap (λ k. (c.heap k).connection) e ∙ h.connected) (
      rw
        (ap (λ k. is_some (c.heap k).response) e ∙ completed-is_some (c.heap i).response h.answered)
        refl)

  chunk-stuck :
      (j : ℕ) (b : Chunk) (c : Conn)
      → j ≡ i
      → IsStuck i w t c
      → (response_send_chunk j (c.heap j).response b c).0 ≡ c
  unfolding response_send_chunk
  chunk-stuck j b c e h =
      by_response (c.heap j).response
        (ap (λ k. response_completed (c.heap k).response) e ∙ h.answered)
    where
      by_response :
          (o : Option ServerResponse)
          → response_completed o ≡ true
          → (response_send_chunk j o b c).0 ≡ c
      by_response none a = refl
      by_response (some s) a = rw a refl

  final-stuck :
      (j : ℕ) (b : Chunk) (c : Conn)
      → j ≡ i
      → IsStuck i w t c
      → (response_send_final_chunk j (c.heap j).response b c).0 ≡ c
  unfolding response_send_final_chunk
  final-stuck j b c e h =
      by_response (c.heap j).response
        (ap (λ k. response_completed (c.heap k).response) e ∙ h.answered)
    where
      by_response :
          (o : Option ServerResponse)
          → response_completed o ≡ true
          → (response_send_final_chunk j o b c).0 ≡ c
      by_response none a = refl
      by_response (some s) a = rw a refl

  drop-stuck : (j : ℕ) (c : Conn) → j ≡ i → IsStuck i w t c → request_drop j c ≡ c
  unfolding request_drop
  drop-stuck j c e h =
      rw (ap (λ k. (c.heap k).connection) e ∙ h.connected)
        (rw (ap (λ k. response_completed (c.heap k).response) e ∙ h.answered) refl)

  calls-stuck : (ks : List Call) (c : Conn) → Answers i ks → IsStuck i w t c → calls ks c ≡ c
  unfolding calls call
  calls-stuck [] c a h = refl
  calls-stuck (respond j s ∷ ks) c a h =
      ap (calls ks) (respond-stuck j s c a.0 h) ∙ calls-stuck ks c a.1 h
  calls-stuck (send_chunk j b ∷ ks) c a h =
      ap (calls ks) (chunk-stuck j b c a.0 h) ∙ calls-stuck ks c a.1 h
  calls-stuck (send_final_chunk j b ∷ ks) c a h =
      ap (calls ks) (final-stuck j b c a.0 h) ∙ calls-stuck ks c a.1 h
  calls-stuck (drop j ∷ ks) c a h = ap (calls ks) (drop-stuck j c a.0 h) ∙ calls-stuck ks c a.1 h
  calls-stuck (_ ∷ ks) c a h = absurd a

  module _ (page : ℕ → Chunk) (user : Event → Conn → List Call) where
    from-IsStuck :
        (ds : List Delivery) (c : Conn)
        → Waits i ds
        → IsStuck i w t c
        → IsStuck i w t (run page user ds c)
    unfolding run step Loop.deliver on_write check_if_idle
    from-IsStuck [] c a h = h
    from-IsStuck (data_read ps ∷ ds) c a h = from-IsStuck ds _ a (
        if_elim (IsStuck i w t) (c.listening && c.reading) _ _
          (λ b. absurd (ground (arith, b, h.deaf))) (λ _. h))
    from-IsStuck (read_failed err ∷ ds) c a h = from-IsStuck ds _ a (
        if_elim (IsStuck i w t) (c.listening && c.reading) _ _
          (λ b. absurd (ground (arith, b, h.deaf))) (λ _. h))
    from-IsStuck (written none ∷ ds) c a h = from-IsStuck ds _ a (
        if_elim (IsStuck i w t) c.listening _ _
          (λ _.
            if_elim (IsStuck i w t) (is_empty c.requests) _ _
              (λ b. absurd (ground (arith, b, h.queue)))
              (λ _. record {
                queue = h.queue;
                connected = h.connected;
                answered = h.answered;
                deaf = h.deaf;
                untimed = h.untimed;
                wire = h.wire;
                stream = h.stream;
              }))
          (λ _. h))
    from-IsStuck (idle_timeout ∷ ds) c a h = from-IsStuck ds _ a (
        if_elim (IsStuck i w t) (is_active c.idle_timer) _ _
          (λ b. absurd (ground (arith, b, h.untimed))) (λ _. h))
    from-IsStuck (called ks ∷ ds) c a h =
        from-IsStuck ds (calls ks c) a.1 (subst (IsStuck i w t) (sym (calls-stuck ks c a.0 h)) h)
    from-IsStuck (written (some err) ∷ ds) c a h = absurd a
    from-IsStuck (_ ∷ ds) c a h = absurd a

stopped_lem : (t : Timer) → is_active (stop_timer t) ≡ false
stopped_lem t = ground arith

-- The request that is read when the error comes: the only one, with its whole response.
pub record IsAnswered (i : ℕ) (c : Conn) : Type 0 where
  pub queue : c.requests ≡ i ∷ []
  pub connected : (c.heap i).connection ≡ true
  pub answered : response_completed (c.heap i).response ≡ true
  pub unread : (c.heap i).is_done ≡ false

module _ (page : ℕ → Chunk) (user : Event → Conn → List Call)
    (silent : (e : Event) (c : Conn) → user e c ≡ []) where
  request_error-IsStuck :
      (i : ℕ) (err : Option ErrorCode) (c : Conn)
      → c.requests ≡ i ∷ []
      → (c.heap i).connection ≡ true
      → response_completed (c.heap i).response ≡ true
      → is_active c.idle_timer ≡ false
      → IsStuck i c.wire c.stream (request_error page user i err c)
  unfolding request_error dispatch calls
  request_error-IsStuck i err c q k a t =
      let e = if (c.heap i).partial then partial_event i err else error_event i err in
      rw (silent e (emit e (read_ignore c))) (by_response e (c.heap i).response refl)
    where
      by_response :
          (e : Event) (o : Option ServerResponse)
          → (c.heap i).response ≡ o
          → IsStuck i c.wire c.stream (answer_error page user i o (emit e (read_ignore c)))
      by_response e none b = absurd (ground (arith, a, b))
      by_response e (some s) b =
          unfold answer_error in
          record {
            queue = q;
            connected = ground (arith, k);
            answered = ground (arith, a, b);
            deaf = refl;
            untimed = t;
            wire = refl;
            stream = refl;
          }

  on_read_error-IsStuck :
      (i : ℕ) (err : ErrorCode) (c : Conn)
      → IsAnswered i c
      → IsStuck i c.wire c.stream (on_read_error page user err c)
  unfolding on_read_error failing_request
  on_read_error-IsStuck i err c h =
      subst (λ (r : Conn × ℕ). IsStuck i c.wire c.stream (then_error r))
        (sym (ap (λ b. failing_request page user b c1) (ap back? h.queue) ∙ failing))
        (request_error-IsStuck i (some err) (marked (c1, i)) h.queue (ground (arith, h.connected))
          (ground (arith, h.answered)) (stopped_lem c.idle_timer))
    where
      c1 : Conn
      c1 = record c { idle_timer = stop_timer c.idle_timer; parsing = none }

      marked : Conn × ℕ → Conn
      marked (d, j) = put_request j (record (d.heap j) { is_done = true }) d

      then_error : Conn × ℕ → Conn
      then_error r = request_error page user r.1 (some err) (marked r)

      failing : failing_request page user (some i) c1 ≡ (c1, i)
      failing = rw h.unread refl

-- A request is the only one in the queue, is still received, and has its whole response. If the
-- stream then reports a read error, and the user's callbacks make no call in answer to an event, the
-- request stays in the queue, nothing more is written and the stream stays as it is: whatever the
-- stream and the timer deliver, a failed write, a shutdown and the peer's end of the stream aside, and
-- however often the user answers the request, sends chunks of its response or drops it.
pub error_after_answer :
    (page : ℕ → Chunk) (user : Event → Conn → List Call) (i : ℕ) (err : ErrorCode) (c : Conn)
    (ds : List Delivery)
    → ((e : Event) (d : Conn) → user e d ≡ [])
    → IsAnswered i c
    → Waits i ds
    → let d = run page user ds (on_read_error page user err c) in
      (d.requests ≡ i ∷ []) × (d.wire ≡ c.wire) × (d.stream ≡ c.stream)
error_after_answer page user i err c ds silent h a =
    let s =
      from-IsStuck i c.wire c.stream page user ds _ a
        (on_read_error-IsStuck page user silent i err c h) in
    (s.queue, s.wire, s.stream)
