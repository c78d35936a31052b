-- ===== src/Connection/Order/Respond.antt =====
-- Answering and dropping requests keeps the order of the responses.
use uni_event_http.Base.{
  ℕ, ◌≤◌, ◌<◌, ◌≡◌, refl, Bool, true, false, Option, some, List, [], ◌∷◌, ◌⊎◌, arith, ◌∙◌,
  if◌then◌else◌, not, ◌||◌, if_elim, inl, inr, is_empty,
}
use uni_event_http.Error.{ErrorCode, http, pipeline_canceled}
use uni_event_http.Connection.State.{Chunk, Conn, ServerResponse, ServerRequest, stop_timer, closed}
use uni_event_http.Connection.Respond.{
  pop_and_finish, notify_dropped, drop_each, drop_requests, do_close, shutdown, graceful_stop,
  check_if_idle, start_idle_timer, write_head, end_pipeline, write_chunks, start_response,
}
use uni_event_http.Connection.Order.{begun, IsOrdered, responded, Fits}

pub pop_and_finish-IsOrdered :
    (q : List ℕ) (c : Conn) → c.requests ≡ q → IsOrdered c → IsOrdered (pop_and_finish q c)
unfolding pop_and_finish
pop_and_finish-IsOrdered [] c e v = ground arith
pop_and_finish-IsOrdered (i ∷ []) c e v = ground arith
pop_and_finish-IsOrdered (i ∷ j ∷ rest) c e v = ground arith

pop_and_finish-requests :
    (i : ℕ) (rest : List ℕ) (c : Conn) → (pop_and_finish (i ∷ rest) c).requests ≡ rest
unfolding pop_and_finish
pop_and_finish-requests i rest c = refl

notify_dropped-IsOrdered :
    (err : Option ErrorCode) (i : ℕ) (r : ServerRequest) (c : Conn)
    → IsOrdered c
    → IsOrdered (notify_dropped err i r c)
unfolding notify_dropped
notify_dropped-IsOrdered err i r c v = ground arith

notify_dropped-requests :
    (err : Option ErrorCode) (i : ℕ) (r : ServerRequest) (c : Conn)
    → (notify_dropped err i r c).requests ≡ c.requests
unfolding notify_dropped
notify_dropped-requests err i r c = ground arith

drop_each-IsOrdered :
    (err : Option ErrorCode) (q : List ℕ) (c : Conn)
    → c.requests ≡ q
    → IsOrdered c
    → IsOrdered (drop_each err q c)
unfolding drop_each
drop_each-IsOrdered err [] c e v = v
drop_each-IsOrdered err (i ∷ rest) c e v =
    drop_each-IsOrdered err rest _
      (notify_dropped-requests err i (c.heap i) (pop_and_finish (i ∷ rest) c)
        ∙ pop_and_finish-requests i rest c)
      (notify_dropped-IsOrdered err i (c.heap i) _ (pop_and_finish-IsOrdered (i ∷ rest) c e v))

drop_requests-IsOrdered :
    (err : Option ErrorCode) (c : Conn) → IsOrdered c → IsOrdered (drop_requests err c)
unfolding drop_requests
drop_requests-IsOrdered err c v = drop_each-IsOrdered err c.requests c refl v

pub do_close-IsOrdered :
    (err : Option ErrorCode) (soft : Bool) (c : Conn)
    → IsOrdered c
    → IsOrdered (do_close err soft c)
unfolding do_close
do_close-IsOrdered err true c v = drop_requests-IsOrdered err _ (ground arith)
do_close-IsOrdered err false c v = frame (
    drop_requests-IsOrdered err
      (record c { idle_timer = stop_timer c.idle_timer; listening = false; stream = closed })
      (ground arith))
  where
    frame : {d : Conn} → IsOrdered d → IsOrdered (record d { in_server = false })
    frame w = ground (arith, w)

pub check_if_idle-IsOrdered : (c : Conn) → IsOrdered c → IsOrdered (check_if_idle c)
unfolding check_if_idle start_idle_timer
check_if_idle-IsOrdered c v = ground arith

pub graceful_stop-IsOrdered : (c : Conn) → IsOrdered c → IsOrdered (graceful_stop c)
unfolding graceful_stop shutdown
graceful_stop-IsOrdered c v =
    if_elim IsOrdered (is_empty c.requests) _ _ (λ _. do_close-IsOrdered _ true c v)
      (λ _. ground arith)

-- What dropping requests leaves alone.
record SameOutput (c d : Conn) : Type 0 where
  pub wire : d.wire ≡ c.wire
  pub next_id : d.next_id ≡ c.next_id
  pub responses : (i : ℕ) → responded d i ≡ responded c i

drop_one-SameOutput :
    (err : Option ErrorCode) (i : ℕ) (rest : List ℕ) (c : Conn)
    → SameOutput c (notify_dropped err i (c.heap i) (pop_and_finish (i ∷ rest) c))
unfolding notify_dropped pop_and_finish
drop_one-SameOutput err i rest c = record {
  wire = ground arith;
  next_id = ground arith;
  responses = λ j. ground arith;
}

drop_each-SameOutput :
    (err : Option ErrorCode) (q : List ℕ) (c : Conn) → SameOutput c (drop_each err q c)
unfolding drop_each
drop_each-SameOutput err [] c = record { wire = refl; next_id = refl; responses = λ i. refl }
drop_each-SameOutput err (i ∷ rest) c =
    let s =
      drop_each-SameOutput err rest
        (notify_dropped err i (c.heap i) (pop_and_finish (i ∷ rest) c)) in
    let t = drop_one-SameOutput err i rest c in
    record {
      wire = s.wire ∙ t.wire;
      next_id = s.next_id ∙ t.next_id;
      responses = λ j. s.responses j ∙ t.responses j;
    }

drop_requests-SameOutput : (err : Option ErrorCode) (c : Conn) → SameOutput c (drop_requests err c)
unfolding drop_requests
drop_requests-SameOutput err c = drop_each-SameOutput err c.requests c

write_head-IsOrdered :
    (i : ℕ) (rest : List ℕ) (s : ServerResponse) (c : Conn)
    → c.requests ≡ i ∷ rest
    → begun c.wire ≤ i
    → IsOrdered c
    → IsOrdered (write_head i s c)
unfolding write_head
write_head-IsOrdered i rest s c e b v = ground arith

write_head-requests :
    (i : ℕ) (rest : List ℕ) (s : ServerResponse) (c : Conn)
    → c.requests ≡ i ∷ rest
    → (write_head i s c).requests ≡ i ∷ rest
unfolding write_head
write_head-requests i rest s c e = e

-- `push_front` after the rest of the pipeline was dropped.
restore_front :
    (i : ℕ) (c d : Conn)
    → SameOutput c d
    → i < c.next_id
    → Fits c i
    → IsOrdered d
    → IsOrdered (record d { requests = i ∷ [] })
restore_front i c d s b f v = ground (arith, s.wire, s.next_id, s.responses i)

end_pipeline-IsOrdered :
    (i : ℕ) (rest : List ℕ) (c : Conn)
    → c.requests ≡ i ∷ rest
    → IsOrdered c
    → IsOrdered (end_pipeline i rest c)
unfolding end_pipeline
end_pipeline-IsOrdered i [] c e v = ground arith
end_pipeline-IsOrdered i (j ∷ rest) c e v =
    restore_front i c' (drop_requests (some (http pipeline_canceled)) c')
      (drop_requests-SameOutput (some (http pipeline_canceled)) c') (ground arith) (ground arith)
      (drop_requests-IsOrdered (some (http pipeline_canceled)) c' (ground arith))
  where
    c' : Conn
    c' = record c {
      requests = j ∷ rest;
      closing = true;
      reading = if (c.heap i).is_done then false else c.reading;
    }

pub write_chunks-IsOrdered :
    (i : ℕ) (parts : List Chunk) (c : Conn) → IsOrdered c → IsOrdered (write_chunks i parts c)
unfolding write_chunks
write_chunks-IsOrdered i [] c v = v
write_chunks-IsOrdered i (b ∷ parts) c v = write_chunks-IsOrdered i parts _ (ground arith)

end_pipeline-requests :
    (i : ℕ) (rest : List ℕ) (c : Conn)
    → c.requests ≡ i ∷ rest
    → ((end_pipeline i rest c).requests ≡ i ∷ rest) ⊎ ((end_pipeline i rest c).requests ≡ i ∷ [])
unfolding end_pipeline
end_pipeline-requests i [] c e = inl e
end_pipeline-requests i (j ∷ rest) c e = inr refl

pub start_response-IsOrdered :
    (i : ℕ) (rest : List ℕ) (s : ServerResponse) (c : Conn)
    → c.requests ≡ i ∷ rest
    → begun c.wire ≤ i
    → IsOrdered c
    → IsOrdered (start_response i rest s c)
unfolding start_response
start_response-IsOrdered i rest s c e b v =
    if_elim IsOrdered (not s.keep_alive || not (c.heap i).keep_alive) _ _
      (λ _. end_pipeline-IsOrdered i rest (write_head i s c) (write_head-requests i rest s c e) w)
      (λ _. w)
  where
    w : IsOrdered (write_head i s c)
    w = write_head-IsOrdered i rest s c e b v

pub start_response-requests :
    (i : ℕ) (rest : List ℕ) (s : ServerResponse) (c : Conn)
    → c.requests ≡ i ∷ rest
    → ((start_response i rest s c).requests ≡ i ∷ rest)
      ⊎ ((start_response i rest s c).requests ≡ i ∷ [])
unfolding start_response
start_response-requests i rest s c e =
    if_elim (λ (d : Conn). (d.requests ≡ i ∷ rest) ⊎ (d.requests ≡ i ∷ []))
      (not s.keep_alive || not (c.heap i).keep_alive) _ _
      (λ _. end_pipeline-requests i rest (write_head i s c) w) (λ _. inl w)
  where
    w : (write_head i s c).requests ≡ i ∷ rest
    w = write_head-requests i rest s c e
