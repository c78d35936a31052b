-- ===== src/Connection/Frames/Steady.antt =====
-- A request that is received in full is never marked to be finished later.
use uni_event_http.Base.{
  ℕ, ◌≡◌, refl, Bool, true, false, Option, none, some, List, [], ◌∷◌, ◌∙◌, sym, ap, arith, is_some,
  not, ◌||◌, if◌then◌else◌, if_elim, is_empty,
}
use uni_event_http.Error.{ErrorCode, http, pipeline_canceled}
use uni_event_http.Connection.State.{
  Chunk, Conn, ServerResponse, Fault, not_completed, requests_left, assert, put_request, stop_timer,
  shut, closed,
}
use uni_event_http.Connection.Respond.{
  response_completed, do_close, close, shutdown, graceful_stop, drop_requests, cleanup_request,
  finish_front, after_cleanup, finish_next, check_if_idle, start_idle_timer, write_head,
  holds_chunks, end_pipeline, write_chunks, start_response, write_response, write_next,
  write_next_response, finish_request,
}
use uni_event_http.Connection.Flow.{is_open}
use uni_event_http.Connection.Flow.Frame.{drop_each-SameState}
use uni_event_http.Connection.Frames.Write.{cleanup_request-Cleaned}
use uni_event_http.Connection.Frames.Respond.{drop_each-SameResponses}

pub record Steady (i : ℕ) (c d : Conn) : Type 0 where
  pub stream : is_open d.stream ≡ true → is_open c.stream ≡ true
  pub read : (d.heap i).is_done ≡ (c.heap i).is_done
  pub ends : (d.heap i).finish_on_receive ≡ (c.heap i).finish_on_receive

pub unchanged-Steady : (i : ℕ) (c : Conn) → Steady i c c
unchanged-Steady i c = record { stream = λ h. h; read = refl; ends = refl }

-- Steady steps, for a request that is received in full.
module _ (i : ℕ) where
  pub both-Steady : (c d e : Conn) → Steady i c d → Steady i d e → Steady i c e
  both-Steady c d e s t = record {
    stream = λ h. s.stream (t.stream h);
    read = t.read ∙ s.read;
    ends = t.ends ∙ s.ends;
  }

  pub assert-Steady : (b : Bool) (f : Fault) (c : Conn) → Steady i c (assert b f c)
  assert-Steady true f c = unchanged-Steady i c
  assert-Steady false f c = record { stream = λ h. h; read = refl; ends = refl }

  do_close-Steady :
      (err : Option ErrorCode) (soft : Bool) (c : Conn) → Steady i c (do_close err soft c)
  unfolding do_close drop_requests
  do_close-Steady err true c =
      let s = drop_each-SameState err c.requests (record c { stream = shut }) in
      record {
        stream = λ h. absurd (ground (arith, h, ap is_open s.stream));
        read = s.read i;
        ends = (drop_each-SameResponses err c.requests (record c { stream = shut })).ends i;
      }
  do_close-Steady err false c =
      let c' = record c {
        idle_timer = stop_timer c.idle_timer;
        listening = false;
        stream = closed;
      } in
      let s = drop_each-SameState err c.requests c' in
      record {
        stream = λ h. absurd (ground (arith, h, ap is_open s.stream));
        read = s.read i;
        ends = (drop_each-SameResponses err c.requests c').ends i;
      }

  pub close-Steady : (err : Option ErrorCode) (c : Conn) → Steady i c (close err c)
  unfolding close
  close-Steady err c = do_close-Steady err false c

  pub shutdown-Steady : (err : Option ErrorCode) (c : Conn) → Steady i c (shutdown err c)
  unfolding shutdown
  shutdown-Steady err c = do_close-Steady err true c

  graceful_stop-Steady : (c : Conn) → Steady i c (graceful_stop c)
  unfolding graceful_stop
  graceful_stop-Steady c =
      if_elim (Steady i c) (is_empty c.requests) _ _ (λ _. shutdown-Steady _ c)
        (λ _. record { stream = λ h. h; read = refl; ends = refl })

  check_if_idle-Steady : (c : Conn) → Steady i c (check_if_idle c)
  unfolding check_if_idle start_idle_timer
  check_if_idle-Steady c = record {
    stream = λ h. ground (arith, h);
    read = ground arith;
    ends = ground arith;
  }

  pub cleanup_request-Steady : (c : Conn) → Steady i c (cleanup_request c)
  cleanup_request-Steady c =
      let s = cleanup_request-Cleaned i c in
      record { stream = λ h. ap is_open (sym s.stream) ∙ h; read = s.read i; ends = s.ends i }

  abbrev KeepsSteady : (Conn → Conn) → Type 0
  KeepsSteady next = (d : Conn) → (d.heap i).is_done ≡ true → Steady i d (next d)

  finish_next-Steady :
      (next : Conn → Conn) (q : List ℕ) (c : Conn)
      → KeepsSteady next
      → (c.heap i).is_done ≡ true
      → Steady i c (finish_next next q c)
  unfolding finish_next
  finish_next-Steady next [] c w d = check_if_idle-Steady c
  finish_next-Steady next (j ∷ q) c w d =
      if_elim (Steady i c) (is_some (c.heap j).response) _ _ (λ _. w c d)
        (λ _. unchanged-Steady i c)

  after_cleanup-Steady :
      (next : Conn → Conn) (c : Conn)
      → KeepsSteady next
      → (c.heap i).is_done ≡ true
      → Steady i c (after_cleanup next c)
  unfolding after_cleanup
  after_cleanup-Steady next c w d =
      if_elim (Steady i c) (c.closing || c.stopping) _ _
        (λ _.
          both-Steady c _ _ (assert-Steady (is_empty c.requests) requests_left c)
            (shutdown-Steady none (assert (is_empty c.requests) requests_left c)))
        (λ _. finish_next-Steady next c.requests c w d)

  finish_front-Steady :
      (next : Conn → Conn) (q : List ℕ) (c : Conn)
      → KeepsSteady next
      → (c.heap i).is_done ≡ true
      → Steady i c (finish_front next q c)
  unfolding finish_front
  finish_front-Steady next [] c w d = record { stream = λ h. h; read = refl; ends = refl }
  finish_front-Steady next (j ∷ q) c w d =
      let b = response_completed (c.heap j).response in
      let a = assert-Steady b not_completed c in
      both-Steady c (assert b not_completed c) _ a (
        if_elim (Steady i (assert b not_completed c)) (not (c.heap j).is_done) _ _
          (λ n. waits b (ground (arith, n)))
          (λ _.
            let e = cleanup_request-Steady (assert b not_completed c) in
            both-Steady (assert b not_completed c) (cleanup_request (assert b not_completed c)) _ e
              (after_cleanup-Steady next _ w (e.read ∙ a.read ∙ d))))
    where
      waits :
          (b : Bool)
          → (c.heap j).is_done ≡ false
          → Steady i (assert b not_completed c) (
              put_request j
                (record (c.heap j) { finish_on_receive = true })
                (assert b not_completed c))
      waits true n = record {
        stream = λ h. h;
        read = ground (arith, d, n);
        ends = ground (arith, d, n);
      }
      waits false n = record {
        stream = λ h. h;
        read = ground (arith, d, n);
        ends = ground (arith, d, n);
      }

  write_head-Steady : (j : ℕ) (s : ServerResponse) (c : Conn) → Steady i c (write_head j s c)
  unfolding write_head
  write_head-Steady j s c = record { stream = λ h. h; read = ground arith; ends = ground arith }

  end_pipeline-Steady : (j : ℕ) (rest : List ℕ) (c : Conn) → Steady i c (end_pipeline j rest c)
  unfolding end_pipeline drop_requests
  end_pipeline-Steady j [] c = record { stream = λ h. h; read = refl; ends = refl }
  end_pipeline-Steady j (k ∷ rest) c =
      let c' = record c {
        requests = k ∷ rest;
        closing = true;
        reading = if (c.heap j).is_done then false else c.reading;
      } in
      let s = drop_each-SameState (some (http pipeline_canceled)) (k ∷ rest) c' in
      let t = drop_each-SameResponses (some (http pipeline_canceled)) (k ∷ rest) c' in
      record { stream = λ h. ap is_open (sym s.stream) ∙ h; read = s.read i; ends = t.ends i }

  start_response-Steady :
      (j : ℕ) (rest : List ℕ) (s : ServerResponse) (c : Conn)
      → Steady i c (start_response j rest s c)
  unfolding start_response
  start_response-Steady j rest s c =
      let w = write_head-Steady j s c in
      if_elim (Steady i c) (not s.keep_alive || not (c.heap j).keep_alive) _ _
        (λ _. both-Steady c (write_head j s c) _ w (end_pipeline-Steady j rest (write_head j s c)))
        (λ _. w)

  write_chunks-Steady :
      (j : ℕ) (parts : List Chunk) (c : Conn) → Steady i c (write_chunks j parts c)
  unfolding write_chunks
  write_chunks-Steady j [] c = unchanged-Steady i c
  write_chunks-Steady j (b ∷ parts) c =
      let s = write_chunks-Steady j parts _ in
      record { stream = s.stream; read = s.read; ends = s.ends }

  write_response-Steady :
      (next : Conn → Conn) (j : ℕ) (rest : List ℕ) (o : Option ServerResponse) (c : Conn)
      → KeepsSteady next
      → (c.heap i).is_done ≡ true
      → Steady i c (write_response next j rest o c)
  unfolding write_response
  write_response-Steady next j rest none c w d = record {
    stream = λ h. h;
    read = refl;
    ends = refl;
  }
  write_response-Steady next j rest (some s) c w d =
      let x = start_response-Steady j rest s c in
      both-Steady c (start_response j rest s c) _ x (
        if_elim (Steady i (start_response j rest s c)) s.completed _ _
          (λ _. finish_front-Steady next _ (start_response j rest s c) w (x.read ∙ d))
          (λ _.
            if_elim (Steady i (start_response j rest s c)) (holds_chunks s) _ _
              (λ _. write_chunks-Steady j s.body (start_response j rest s c))
              (λ _. unchanged-Steady i (start_response j rest s c))))

  write_next-Steady : (q : List ℕ) → KeepsSteady (write_next q)
  unfolding write_next
  write_next-Steady [] c d = record { stream = λ h. h; read = refl; ends = refl }
  write_next-Steady (j ∷ rest) c d =
      write_response-Steady (write_next rest) j rest (c.heap j).response c (write_next-Steady rest)
        d

  pub write_next_response-Steady : KeepsSteady write_next_response
  unfolding write_next_response
  write_next_response-Steady c d = write_next-Steady c.requests c d

  pub finish_request-Steady : KeepsSteady finish_request
  unfolding finish_request
  finish_request-Steady c d =
      finish_front-Steady write_next_response c.requests c write_next_response-Steady d
