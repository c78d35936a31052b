-- ===== src/Connection/Frames/Respond.antt =====
-- Writing the next response keeps the responses apart.
use uni_event_http.Base.{
  ℕ, ◌≡◌, refl, true, false, Option, none, some, List, [], ◌∷◌, ◌⊎◌, inl, inr, ◌∙◌, sym, ap, subst,
  arith, not, ◌||◌, if◌then◌else◌, if_elim,
}
use uni_event_http.Error.{ErrorCode, http, pipeline_canceled}
use uni_event_http.Connection.State.{Chunk, body_chunk, Conn, ServerResponse, front?, is, write}
use uni_event_http.Connection.Respond.{
  finish_request, notify_dropped, response_completed, pop_and_finish, drop_each, drop_requests,
  finish_front, write_head, holds_chunks, end_pipeline, write_chunks, start_response,
  write_response, write_next, write_next_response, prepare,
}
use uni_event_http.Connection.Order.Respond.{start_response-requests}
use uni_event_http.Connection.Flow.{is_open}
use uni_event_http.Connection.Flow.Frame.{drop_each-SameState}
use uni_event_http.Connection.Frames.{unfinished, InFrames, pending_of, pending, IsRested, IsFramed}
use uni_event_http.Connection.Frames.Frame.{
  SameFrame, same-HoldsFront, same-IsFramed, assert-IsFramed, written-IsFramed,
}
use uni_event_http.Connection.Frames.Write.{Continues, rested-IsFramed, finish_front-IsFramed}

-- What dropping requests leaves of the responses.
pub record SameResponses (c d : Conn) : Type 0 where
  pub response : (j : ℕ) → (d.heap j).response ≡ (c.heap j).response
  pub ends : (j : ℕ) → (d.heap j).finish_on_receive ≡ (c.heap j).finish_on_receive

drop_one-SameResponses :
    (err : Option ErrorCode) (i : ℕ) (rest : List ℕ) (c : Conn)
    → SameResponses c (notify_dropped err i (c.heap i) (pop_and_finish (i ∷ rest) c))
unfolding notify_dropped pop_and_finish
drop_one-SameResponses err i rest c = record {
  response = λ j. ground arith;
  ends = λ j. ground arith;
}

pub drop_each-SameResponses :
    (err : Option ErrorCode) (q : List ℕ) (c : Conn) → SameResponses c (drop_each err q c)
unfolding drop_each
drop_each-SameResponses err [] c = record { response = λ j. refl; ends = λ j. refl }
drop_each-SameResponses err (i ∷ rest) c =
    let t = drop_one-SameResponses err i rest c in
    let s =
      drop_each-SameResponses err rest
        (notify_dropped err i (c.heap i) (pop_and_finish (i ∷ rest) c)) in
    record { response = λ j. s.response j ∙ t.response j; ends = λ j. s.ends j ∙ t.ends j }

write_head-SameFrame :
    (i : ℕ) (s : ServerResponse) (c : Conn)
    → (c.heap i).response ≡ some s
    → SameFrame c (write_head i s c)
unfolding write_head prepare
write_head-SameFrame i s c n = record {
  requests = refl;
  stream = refl;
  given = λ j. ground (arith, n);
  whole = λ j. ground (arith, n);
  ends = λ j. ground arith;
  read = λ j. ground arith;
}

write_head-whole :
    (i : ℕ) (s : ServerResponse) (c : Conn)
    → response_completed ((write_head i s c).heap i).response ≡ s.completed
unfolding write_head prepare
write_head-whole i s c = ground arith

write_head-unfinished :
    (i : ℕ) (s : ServerResponse) (c : Conn)
    → unfinished (write_head i s c).wire ≡ (if s.completed then none else some i)
unfolding write_head prepare
write_head-unfinished i s c = ground arith

write_head-IsFramed :
    (i : ℕ) (rest : List ℕ) (s : ServerResponse) (c : Conn)
    → c.requests ≡ i ∷ rest
    → (c.heap i).response ≡ some s
    → IsRested c
    → IsFramed (write_head i s c)
write_head-IsFramed i rest s c e n v =
    let f = write_head-SameFrame i s c n in
    record {
      frames = λ h.
          let o = ap is_open (sym f.stream) ∙ h in unfold write_head in (v.rested o, v.frames o);
      matches = λ h.
          write_head-unfinished i s c
          ∙ ground (arith, write_head-whole i s c, f.given i, n)
          ∙ ap (pending (write_head i s c)) (sym (f.requests ∙ e));
      holds = λ h. same-HoldsFront c (write_head i s c) f (v.holds (ap is_open (sym f.stream) ∙ h));
    }

end_pipeline-IsFramed :
    (i : ℕ) (rest : List ℕ) (c : Conn)
    → c.requests ≡ i ∷ rest
    → IsFramed c
    → IsFramed (end_pipeline i rest c)
unfolding end_pipeline drop_requests
end_pipeline-IsFramed i [] c e v =
    same-IsFramed c _ refl
      (record {
        requests = refl;
        stream = refl;
        given = λ j. refl;
        whole = λ j. refl;
        ends = λ j. refl;
        read = λ j. refl;
      })
      v
end_pipeline-IsFramed i (j ∷ rest) c e v =
    let c' = record c {
      requests = j ∷ rest;
      closing = true;
      reading = if (c.heap i).is_done then false else c.reading;
    } in
    let d = drop_each (some (http pipeline_canceled)) (j ∷ rest) c' in
    let s = drop_each-SameState (some (http pipeline_canceled)) (j ∷ rest) c' in
    let t = drop_each-SameResponses (some (http pipeline_canceled)) (j ∷ rest) c' in
    record {
      frames = λ h. subst InFrames (sym s.wire) (v.frames (ap is_open (sym s.stream) ∙ h));
      matches = λ h.
          ap unfinished s.wire
          ∙ v.matches (ap is_open (sym s.stream) ∙ h)
          ∙ ap (pending c) e
          ∙ ap (pending_of i) (sym (t.response i));
      holds = λ h k f r.
          let x =
            v.holds (ap is_open (sym s.stream) ∙ h) k (sym (t.ends k) ∙ f) (sym (s.read k) ∙ r) in
          record {
            at_front = ap (λ q. is k (front? q)) (sym e) ∙ x.at_front;
            whole = ap response_completed (t.response k) ∙ x.whole;
          };
    }

end_pipeline-wire : (i : ℕ) (rest : List ℕ) (c : Conn) → (end_pipeline i rest c).wire ≡ c.wire
unfolding end_pipeline drop_requests
end_pipeline-wire i [] c = refl
end_pipeline-wire i (j ∷ rest) c =
    (drop_each-SameState (some (http pipeline_canceled)) (j ∷ rest) _).wire

end_pipeline-response :
    (i : ℕ) (rest : List ℕ) (c : Conn)
    → ((end_pipeline i rest c).heap i).response ≡ (c.heap i).response
unfolding end_pipeline drop_requests
end_pipeline-response i [] c = refl
end_pipeline-response i (j ∷ rest) c =
    (drop_each-SameResponses (some (http pipeline_canceled)) (j ∷ rest) _).response i

module _ (i : ℕ) (rest : List ℕ) (s : ServerResponse) (c : Conn) where
  start_response-IsFramed :
      c.requests ≡ i ∷ rest
      → (c.heap i).response ≡ some s
      → IsRested c
      → IsFramed (start_response i rest s c)
  unfolding start_response
  start_response-IsFramed e n v =
      let w = write_head-IsFramed i rest s c e n v in
      if_elim IsFramed (not s.keep_alive || not (c.heap i).keep_alive) _ _
        (λ _.
          end_pipeline-IsFramed i rest (write_head i s c)
            ((write_head-SameFrame i s c n).requests ∙ e) w)
        (λ _. w)

  start_response-whole :
      response_completed ((start_response i rest s c).heap i).response ≡ s.completed
  unfolding start_response
  start_response-whole =
      if_elim (λ (d : Conn). response_completed (d.heap i).response ≡ s.completed)
        (not s.keep_alive || not (c.heap i).keep_alive) _ _
        (λ _.
          ap response_completed (end_pipeline-response i rest (write_head i s c))
          ∙ write_head-whole i s c)
        (λ _. write_head-whole i s c)

  start_response-unfinished :
      unfinished (start_response i rest s c).wire ≡ (if s.completed then none else some i)
  unfolding start_response
  start_response-unfinished =
      if_elim (λ (d : Conn). unfinished d.wire ≡ (if s.completed then none else some i))
        (not s.keep_alive || not (c.heap i).keep_alive) _ _
        (λ _.
          ap unfinished (end_pipeline-wire i rest (write_head i s c)) ∙ write_head-unfinished i s c)
        (λ _. write_head-unfinished i s c)

write_chunks-IsFramed :
    (i : ℕ) (parts : List Chunk) (c : Conn)
    → unfinished c.wire ≡ some i
    → IsFramed c
    → IsFramed (write_chunks i parts c)
unfolding write_chunks
write_chunks-IsFramed i [] c u v = v
write_chunks-IsFramed i (b ∷ parts) c u v =
    write_chunks-IsFramed i parts (write (body_chunk i b) c) u
      (written-IsFramed (body_chunk i b) c refl (λ _ f. (u, f)) v)

write_response-IsFramed :
    (next : Conn → Conn) (i : ℕ) (rest : List ℕ) (s : ServerResponse) (c : Conn)
    → c.requests ≡ i ∷ rest
    → (c.heap i).response ≡ some s
    → Continues next rest
    → IsRested c
    → IsFramed (write_response next i rest (some s) c)
unfolding write_response
write_response-IsFramed next i rest s c e n w v =
    if_elim IsFramed s.completed _ _
      (λ k. finish (start_response-requests i rest s c e) (start_response-whole i rest s c ∙ k))
      (λ k.
        if_elim IsFramed (holds_chunks s) _ _
          (λ _.
            write_chunks-IsFramed i s.body c'
              (start_response-unfinished i rest s c ∙ ground (arith, k)) x)
          (λ _. x))
  where
    c' : Conn
    c' = start_response i rest s c

    x : IsFramed c'
    x = start_response-IsFramed i rest s c e n v

    finish :
        (c'.requests ≡ i ∷ rest) ⊎ (c'.requests ≡ i ∷ [])
        → response_completed (c'.heap i).response ≡ true
        → IsFramed (finish_front next c'.requests c')
    finish (inl q) k =
        subst (λ z. IsFramed (finish_front next z c')) (sym q)
          (finish_front-IsFramed next i rest c' q k w x)
    finish (inr q) k =
        subst (λ z. IsFramed (finish_front next z c')) (sym q)
          (finish_front-IsFramed next i [] c' q k (λ d j r a. absurd (cc)) x)

write_next-IsFramed :
    (q : List ℕ) (c : Conn) → c.requests ≡ q → IsRested c → IsFramed (write_next q c)
unfolding write_next
write_next-IsFramed [] c e v =
    assert-IsFramed false _ c (rested-IsFramed c (λ _. ap (pending c) e) v)
write_next-IsFramed (i ∷ rest) c e v =
    by_response (c.heap i).response refl (rest_continues rest (write_next-IsFramed rest))
  where
    rest_continues :
        (q : List ℕ)
        → ((d : Conn) → d.requests ≡ q → IsRested d → IsFramed (write_next q d))
        → Continues (write_next q) q
    rest_continues q ih d j r a g x = ih d (g ∙ sym a) x

    by_response :
        (o : Option ServerResponse)
        → (c.heap i).response ≡ o
        → Continues (write_next rest) rest
        → IsFramed (write_response (write_next rest) i rest o c)
    by_response none n w =
        unfold write_response in
        assert-IsFramed false _ c (rested-IsFramed c (λ _. ap (pending c) e ∙ ground (arith, n)) v)
    by_response (some s) n w = write_response-IsFramed (write_next rest) i rest s c e n w v

pub write_next_response-IsFramed : (c : Conn) → IsRested c → IsFramed (write_next_response c)
unfolding write_next_response
write_next_response-IsFramed c v = write_next-IsFramed c.requests c refl v

-- `finish_request`, called where the front request has its whole response.
pub finish_request-IsFramed :
    (i : ℕ) (c : Conn)
    → is i (front? c.requests) ≡ true
    → response_completed (c.heap i).response ≡ true
    → IsFramed c
    → IsFramed (finish_request c)
unfolding finish_request
finish_request-IsFramed i c f w v = by_queue c.requests refl f
  where
    by_queue :
        (q : List ℕ)
        → c.requests ≡ q
        → is i (front? q) ≡ true
        → IsFramed (finish_front write_next_response q c)
    by_queue [] e f = absurd (ground (arith, f))
    by_queue (j ∷ rest) e f =
        finish_front-IsFramed write_next_response j rest c e (ground (arith, f, w))
          (λ d k r a g x. write_next_response-IsFramed d x) v
