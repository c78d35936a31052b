-- ===== src/Connection/Flow/Write.antt =====
-- Writing the next response holds none back.
use uni_event_http.Base.{
  ℕ, suc, ◌≡◌, refl, true, false, Option, none, some, List, [], ◌∷◌, ◌⊎◌, arith, ◌∙◌, sym, ap,
  subst, not, ◌||◌, if_elim, inl, inr, is_empty, if◌then◌else◌,
}
use uni_event_http.Error.{http, pipeline_canceled}
use uni_event_http.Connection.State.{Chunk, body_chunk, Conn, ServerResponse}
use uni_event_http.Connection.Respond.{
  drop_each, drop_requests, finish_front, write_head, end_pipeline, write_chunks, holds_chunks,
  start_response, write_response, write_next, write_next_response, finish_request,
}
use uni_event_http.Connection.Order.{begun}
use uni_event_http.Connection.Order.Respond.{start_response-requests}
use uni_event_http.Connection.Flow.{is_open, InTurn, FrontBegun, ParsingUnread, IsReady, IsFlowing}
use uni_event_http.Connection.Flow.Frame.{
  SameState, drop_each-SameState, same-ParsingUnread, same-IsReady, assert-IsFlowing,
  written-IsFlowing,
}
use uni_event_http.Connection.Flow.Finish.{Writes, finish_front-IsFlowing}

write_head-IsFlowing :
    (i : ℕ) (rest : List ℕ) (s : ServerResponse) (c : Conn)
    → c.requests ≡ i ∷ rest
    → IsReady c
    → IsFlowing (write_head i s c)
unfolding write_head
write_head-IsFlowing i rest s c e v = record {
  ready = same-IsReady c _ refl refl refl refl (λ _ x. x) (λ j. ground arith) v;
  front_begun = λ h. subst (FrontBegun (write_head i s c)) (sym e) (λ a. refl);
}

-- The front request after the rest of the pipeline was dropped.
restored-IsFlowing :
    (i : ℕ) (c d : Conn)
    → SameState c d
    → c.closing ≡ true
    → begun c.wire ≡ suc i
    → ParsingUnread c c.parsing
    → (is_open c.stream ≡ true → InTurn c.wire)
    → IsFlowing (record d { requests = i ∷ [] })
restored-IsFlowing i c d s k b u t = record {
  ready = record {
    parsing_unread = same-ParsingUnread c (record d { requests = i ∷ [] }) s.parsing s.read u;
    parsing_queued = λ h k'. absurd (ground (arith, s.closing, k, k'));
    closing_busy = λ h k'. refl;
    in_turn = λ h. subst InTurn (sym s.wire) (t (ap is_open (sym s.stream) ∙ h));
  };
  front_begun = λ h a. ap begun s.wire ∙ b;
}

end_pipeline-IsFlowing :
    (i : ℕ) (rest : List ℕ) (c : Conn)
    → c.requests ≡ i ∷ rest
    → begun c.wire ≡ suc i
    → ParsingUnread c c.parsing
    → (is_open c.stream ≡ true → InTurn c.wire)
    → IsFlowing (end_pipeline i rest c)
unfolding end_pipeline drop_requests
end_pipeline-IsFlowing i [] c e b u t =
    let c' = record c {
      closing = true;
      reading = if (c.heap i).is_done then false else c.reading;
    } in
    record {
      ready = record {
        parsing_unread = same-ParsingUnread c c' refl (λ j. refl) u;
        parsing_queued = λ h k'. absurd (ground (arith, k'));
        closing_busy = λ h k'. ap is_empty e;
        in_turn = t;
      };
      front_begun = λ h. subst (FrontBegun c') (sym e) (λ a. b);
    }
end_pipeline-IsFlowing i (j ∷ rest) c e b u t =
    let c' = record c {
      requests = j ∷ rest;
      closing = true;
      reading = if (c.heap i).is_done then false else c.reading;
    } in
    restored-IsFlowing i c' (drop_each (some (http pipeline_canceled)) (j ∷ rest) c')
      (drop_each-SameState (some (http pipeline_canceled)) (j ∷ rest) c') refl b
      (same-ParsingUnread c c' refl (λ k. refl) u) t

start_response-IsFlowing :
    (i : ℕ) (rest : List ℕ) (s : ServerResponse) (c : Conn)
    → c.requests ≡ i ∷ rest
    → IsReady c
    → IsFlowing (start_response i rest s c)
unfolding start_response
start_response-IsFlowing i rest s c e v =
    let w = write_head-IsFlowing i rest s c e v in
    if_elim IsFlowing (not s.keep_alive || not (c.heap i).keep_alive) _ _
      (λ _.
        end_pipeline-IsFlowing i rest (write_head i s c) (unfold write_head in e)
          (unfold write_head in refl) w.ready.parsing_unread w.ready.in_turn)
      (λ _. w)

start_response-begun :
    (i : ℕ) (rest : List ℕ) (s : ServerResponse) (c : Conn)
    → begun (start_response i rest s c).wire ≡ suc i
unfolding start_response write_head
start_response-begun i rest s c =
    if_elim (λ (d : Conn). begun d.wire ≡ suc i) (not s.keep_alive || not (c.heap i).keep_alive) _ _
      (λ _. ended rest) (λ _. refl)
  where
    ended : (rest : List ℕ) → begun (end_pipeline i rest (write_head i s c)).wire ≡ suc i
    ended [] = unfold end_pipeline in refl
    ended (j ∷ rest) =
        unfold end_pipeline drop_requests in
        ap begun (drop_each-SameState (some (http pipeline_canceled)) (j ∷ rest) _).wire

write_chunks-IsFlowing :
    (i : ℕ) (parts : List Chunk) (c : Conn)
    → begun c.wire ≡ suc i
    → IsFlowing c
    → IsFlowing (write_chunks i parts c)
unfolding write_chunks
write_chunks-IsFlowing i [] c e v = v
write_chunks-IsFlowing i (b ∷ parts) c e v =
    write_chunks-IsFlowing i parts _ e (written-IsFlowing (body_chunk i b) c refl (λ _ t. (e, t)) v)

write_response-IsFlowing :
    (next : Conn → Conn) (i : ℕ) (rest : List ℕ) (s : ServerResponse) (c : Conn)
    → c.requests ≡ i ∷ rest
    → Writes next rest
    → IsReady c
    → IsFlowing (write_response next i rest (some s) c)
unfolding write_response
write_response-IsFlowing next i rest s c e w v =
    if_elim IsFlowing s.completed _ _ (λ _. finish (start_response-requests i rest s c e))
      (λ _.
        if_elim IsFlowing (holds_chunks s) _ _
          (λ _. write_chunks-IsFlowing i s.body c' (start_response-begun i rest s c) x) (λ _. x))
  where
    c' : Conn
    c' = start_response i rest s c

    x : IsFlowing c'
    x = start_response-IsFlowing i rest s c e v

    finish :
        (c'.requests ≡ i ∷ rest) ⊎ (c'.requests ≡ i ∷ [])
        → IsFlowing (finish_front next c'.requests c')
    finish (inl q) =
        subst (λ z. IsFlowing (finish_front next z c')) (sym q)
          (finish_front-IsFlowing next i rest c' q w x)
    finish (inr q) =
        subst (λ z. IsFlowing (finish_front next z c')) (sym q)
          (finish_front-IsFlowing next i [] c' q (λ d j r a. absurd (cc)) x)

write_next-IsFlowing :
    (q : List ℕ) (c : Conn) → c.requests ≡ q → IsReady c → IsFlowing (write_next q c)
unfolding write_next
write_next-IsFlowing [] c e v =
    assert-IsFlowing false _ c
      (record { ready = v; front_begun = λ h. subst (FrontBegun c) (sym e) tt })
write_next-IsFlowing (i ∷ rest) c e v =
    by_response (c.heap i).response refl (rest_writes rest (write_next-IsFlowing rest))
  where
    rest_writes :
        (q : List ℕ)
        → ((d : Conn) → d.requests ≡ q → IsReady d → IsFlowing (write_next q d))
        → Writes (write_next q) q
    rest_writes q ih d j r a g x = ih d (g ∙ sym a) x

    by_response :
        (o : Option ServerResponse)
        → (c.heap i).response ≡ o
        → Writes (write_next rest) rest
        → IsFlowing (write_response (write_next rest) i rest o c)
    by_response none n w =
        unfold write_response in
        assert-IsFlowing false _ c (record {
          ready = v;
          front_begun = λ h. subst (FrontBegun c) (sym e) (λ a. absurd (ground (arith, a, n)));
        })
    by_response (some s) n w = write_response-IsFlowing (write_next rest) i rest s c e w v

pub write_next_response-IsFlowing : (c : Conn) → IsReady c → IsFlowing (write_next_response c)
unfolding write_next_response
write_next_response-IsFlowing c v = write_next-IsFlowing c.requests c refl v

pub finish_request-IsFlowing : (c : Conn) → IsFlowing c → IsFlowing (finish_request c)
unfolding finish_request
finish_request-IsFlowing c v = by_queue c.requests refl
  where
    by_queue : (q : List ℕ) → c.requests ≡ q → IsFlowing (finish_front write_next_response q c)
    by_queue [] e = unfold finish_front in assert-IsFlowing false _ c v
    by_queue (i ∷ rest) e =
        finish_front-IsFlowing write_next_response i rest c e
          (λ d j r _ f x. write_next_response-IsFlowing d x) v
