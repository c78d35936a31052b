-- ===== src/Connection/Frames/Take.antt =====
-- Taking what the parser made of the input, and a read error, mix no responses.
use uni_event_http.Base.{
  ℕ, ◌≡◌, refl, Bool, true, false, Option, none, some, List, [], ◌∷◌, ◌++◌, ◌==◌, arith, ap, ◌∙◌,
  subst, if◌then◌else◌, is_some, if_elim, is_empty,
}
use uni_event_http.Connection.State.{
  Conn, ServerRequest, Timer, stop_timer, back?, front?, is, new_server_request, put_request,
}
use uni_event_http.Connection.Respond.{response_completed}
use uni_event_http.Connection.Read.{
  Parsed, is_done_state, new_request, start_parsing, enqueue, take_parsed, parsed_id,
}
use uni_event_http.Connection.Order.{IsOrdered, Rising, responded}
use uni_event_http.Connection.Flow.{is_open, ParsingUnread, IsFlowing}
use uni_event_http.Connection.Flow.Take.{parsing-queued, fresh-responded, enqueue-heap}
use uni_event_http.Connection.Frames.{pending, IsHeld, HoldsFront, IsFramed}
use uni_event_http.Connection.Frames.Frame.{same-IsFramed}
use uni_event_http.Connection.Frames.Awaited.{Awaits}

-- A request that is put at the back, unless it is there.
module _ (i : ℕ) (r : ServerRequest) (o : Option ℕ) (c : Conn) (framed : IsFramed c)
    (new_front : is_open c.stream ≡ true → is_empty c.requests ≡ true → is_some r.response ≡ false)
    (same_response : r.response ≡ (c.heap i).response)
    (same_end : r.finish_on_receive ≡ (c.heap i).finish_on_receive)
    (waits : is_open c.stream ≡ true → r.finish_on_receive ≡ true → IsHeld i c) where
  abbrev put : List ℕ → Conn
  put q = put_request i r (record c { requests = q; parsing = o })

  same_front : (j : ℕ) (q : List ℕ) → is j (front? q) ≡ true → is j (front? (q ++ i ∷ [])) ≡ true
  same_front j [] f = absurd (ground (arith, f))
  same_front j (k ∷ q) f = f

  same_whole :
      (j : ℕ) (q : List ℕ)
      → response_completed (c.heap j).response ≡ true
      → response_completed ((put q).heap j).response ≡ true
  same_whole j q w = ground (arith, w, ap response_completed same_response)

  holds_in :
      (q : List ℕ)
      → ((j : ℕ) → is j (front? c.requests) ≡ true → is j (front? q) ≡ true)
      → is_open c.stream ≡ true
      → HoldsFront (put q)
  holds_in q g h j f d = by_equal (i == j) refl
    where
      by_equal : (b : Bool) → (i == j) ≡ b → IsHeld j (put q)
      by_equal true e =
          let k : i ≡ j = ground (arith, e) in
          let x = waits h (ground (arith, e, f)) in
          subst (λ n. IsHeld n (put q)) k
            (record { at_front = g i x.at_front; whole = same_whole i q x.whole })
      by_equal false e =
          let x = framed.holds h j (ground (arith, e, f)) (ground (arith, e, d)) in
          record { at_front = g j x.at_front; whole = same_whole j q x.whole }

  same_pending : (q q' : List ℕ) → pending c q' ≡ pending (put q) q'
  same_pending q [] = refl
  same_pending q (k ∷ q') =
      ground (arith, ap is_some same_response, ap response_completed same_response)

  appended_pending :
      (q : List ℕ)
      → c.requests ≡ q
      → is_open c.stream ≡ true
      → pending c q ≡ pending (put (q ++ i ∷ [])) (q ++ i ∷ [])
  appended_pending [] e h = ground (arith, new_front h (ap is_empty e))
  appended_pending (k ∷ q) e h = same_pending (k ∷ q ++ i ∷ []) (k ∷ q)

  put_kept-IsFramed : IsFramed (put c.requests)
  put_kept-IsFramed = record {
    frames = framed.frames;
    matches = λ h. framed.matches h ∙ same_pending c.requests c.requests;
    holds = holds_in c.requests (λ j f. f);
  }

  enqueue-IsFramed : IsFramed (put_request i r (enqueue i (record c { parsing = o })))
  unfolding enqueue
  enqueue-IsFramed =
      if_elim (λ (d : Conn). IsFramed (put_request i r d)) (is i (back? c.requests)) _ _
        (λ _. put_kept-IsFramed)
        (λ _. record {
          frames = framed.frames;
          matches = λ h. framed.matches h ∙ appended_pending c.requests refl h;
          holds = holds_in (c.requests ++ i ∷ []) (λ j f. same_front j c.requests f);
        })

  enqueue-Awaits :
      r.is_done ≡ true → Awaits i (put_request i r (enqueue i (record c { parsing = o })))
  unfolding enqueue
  enqueue-Awaits d =
      if_elim (λ (d : Conn). Awaits i (put_request i r d)) (is i (back? c.requests)) _ _
        (λ _. record {
          done = ground (arith, d);
          held = λ h f.
              let x = waits h (ground (arith, f)) in
              record { at_front = x.at_front; whole = same_whole i c.requests x.whole };
        })
        (λ _. record {
          done = ground (arith, d);
          held = λ h f.
              let x = waits h (ground (arith, f)) in
              record {
                at_front = same_front i c.requests x.at_front;
                whole = same_whole i (c.requests ++ i ∷ []) x.whole;
              };
        })

-- The next object is no request of the queue.
next-front : (c : Conn) → Rising 0 c.next_id c.requests → is c.next_id (front? c.requests) ≡ false
next-front c r = by_queue c.requests r
  where
    by_queue : (q : List ℕ) → Rising 0 c.next_id q → is c.next_id (front? q) ≡ false
    by_queue [] r = refl
    by_queue (j ∷ q) r = ground (arith, r.1)

fresh-ends : (c : Conn) → ((new_request c).heap c.next_id).finish_on_receive ≡ false
unfolding new_request new_server_request
fresh-ends c = ground arith

new_request-IsFramed :
    (c : Conn) → Rising 0 c.next_id c.requests → IsFramed c → IsFramed (new_request c)
unfolding new_request new_server_request
new_request-IsFramed c r v = record {
  frames = v.frames;
  matches = λ h. v.matches h ∙ same c.requests (next-front c r);
  holds = λ h j f d. by_equal h j f d (c.next_id == j) refl;
}
  where
    same : (q : List ℕ) → is c.next_id (front? q) ≡ false → pending c q ≡ pending (new_request c) q
    same [] f = refl
    same (j ∷ q) f = ground (arith, f)

    by_equal :
        is_open c.stream ≡ true
        → (j : ℕ) → ((new_request c).heap j).finish_on_receive ≡ true
        → ((new_request c).heap j).is_done ≡ false
        → (b : Bool) → (c.next_id == j) ≡ b
        → IsHeld j (new_request c)
    by_equal h j f d true e = absurd (ground (arith, f, e))
    by_equal h j f d false e =
        let x = v.holds h j (ground (arith, f, e)) (ground (arith, d, e)) in
        record { at_front = x.at_front; whole = ground (arith, e, x.whole) }

-- What is known of a connection wherever the event loop is.
pub record IsSound (c : Conn) : Type 0 where
  pub ordered : IsOrdered c
  pub flowing : IsFlowing c
  pub framed : IsFramed c

aside-IsFramed :
    (o : Option ℕ) (t : Timer) (c : Conn)
    → IsFramed c
    → IsFramed (record c { idle_timer = t; parsing = o })
aside-IsFramed o t c v =
    same-IsFramed c _ refl
      (record {
        requests = refl;
        stream = refl;
        given = λ j. refl;
        whole = λ j. refl;
        ends = λ j. refl;
        read = λ j. refl;
      })
      v

pub take_parsed_lem :
    (p : Parsed) (c : Conn)
    → IsSound c
    → IsFramed (take_parsed p c)
      × (is_done_state p.state ≡ true → Awaits (parsed_id c.parsing c.next_id) (take_parsed p c))
unfolding take_parsed start_parsing new_request
take_parsed_lem p c v = by_parsing c.parsing refl
  where
    d : Conn
    d = record c { idle_timer = stop_timer c.idle_timer }

    w : IsFramed d
    w = aside-IsFramed c.parsing (stop_timer c.idle_timer) c v.framed

    by_parsing :
        (o : Option ℕ)
        → c.parsing ≡ o
        → let i = parsed_id o c.next_id in
          let c1 = start_parsing o d in
          let e =
            put_request i
              (record (c1.heap i) {
                is_done = is_done_state p.state;
                keep_alive = p.keep_alive;
                upgrade_header = p.upgrade_header;
                expects_continue = p.expects_continue;
                http_10 = p.http_10;
              })
              (enqueue i
                (record c1 { parsing = if is_done_state p.state then none else some i })) in
          IsFramed e × (is_done_state p.state ≡ true → Awaits i e)
    by_parsing none e =
        let b = new_request-IsFramed d v.ordered.rising w in
        let absent : is_open c.stream ≡ true
            → ((new_request d).heap c.next_id).finish_on_receive ≡ true
            → IsHeld c.next_id (new_request d) =
          λ h f. absurd (ground (arith, f, fresh-ends d)) in
        (
          enqueue-IsFramed c.next_id _ _ (new_request d) b (λ h k. fresh-responded d) refl refl
              absent,
          enqueue-Awaits c.next_id _ _ (new_request d) b (λ h k. fresh-responded d) refl refl
              absent,
        )
    by_parsing (some i) e =
        let unread = subst (ParsingUnread c) e v.flowing.ready.parsing_unread in
        let waits : is_open c.stream ≡ true → (c.heap i).finish_on_receive ≡ true → IsHeld i d =
          λ h f. w.holds h i f unread in
        let busy : is_open c.stream ≡ true → is_empty c.requests ≡ true → responded c i ≡ false =
          λ h k. absurd (parsing-queued v.flowing.ready i e h k) in
        (
          enqueue-IsFramed i _ _ d w busy refl refl waits,
          enqueue-Awaits i _ _ d w busy refl refl waits,
        )

-- A new request behind the others, of which nothing was read.
pub fresh_request-IsFramed :
    (c : Conn)
    → Rising 0 c.next_id c.requests
    → IsFramed c
    → let d = enqueue c.next_id (new_request (record c { parsing = none })) in
      IsFramed (put_request c.next_id (record (d.heap c.next_id) { is_done = true }) d)
unfolding new_request
fresh_request-IsFramed c r v =
    enqueue-IsFramed c.next_id _ none c1
      (new_request-IsFramed b r (aside-IsFramed none c.idle_timer c v))
      (λ h k.
        ap (λ x. is_some x.response) (enqueue-heap c.next_id c1 c.next_id) ∙ fresh-responded b)
      (ap (λ x. x.response) (enqueue-heap c.next_id c1 c.next_id))
      (ap (λ x. x.finish_on_receive) (enqueue-heap c.next_id c1 c.next_id))
      (λ h f. absurd (
        ground (
          arith,
          f,
          ap (λ x. x.finish_on_receive) (enqueue-heap c.next_id c1 c.next_id),
          fresh-ends b,
        )))
  where
    b : Conn
    b = record c { parsing = none }

    c1 : Conn
    c1 = new_request b
