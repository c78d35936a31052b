-- ===== src/Connection/Flow/Take.antt =====
-- Taking what the parser made of the input, and a read error, hold no response back.
use uni_event_http.Base.{
  ℕ, ◌≡◌, refl, Bool, true, false, Option, none, some, List, [], ◌∷◌, ◌++◌, arith, ap, ◌∙◌, subst,
  if◌then◌else◌, is_some, if_elim, is_empty,
}
use uni_event_http.Connection.State.{
  Conn, ServerRequest, stop_timer, back?, is, new_server_request, put_request,
}
use uni_event_http.Connection.Read.{
  Parsed, is_done_state, new_request, start_parsing, enqueue, take_parsed, parsed_id,
}
use uni_event_http.Connection.Order.{responded}
use uni_event_http.Connection.Flow.{
  is_open, InTurn, FrontBegun, ParsingUnread, ParsingQueued, IsReady, IsFlowing,
}

is-append : (i : ℕ) (q : List ℕ) → is i (back? (q ++ i ∷ [])) ≡ true
is-append i [] = ground arith
is-append i (j ∷ []) = ground arith
is-append i (j ∷ k ∷ q) = is-append i (k ∷ q)

append-nonempty : (i : ℕ) (q : List ℕ) → is_empty (q ++ i ∷ []) ≡ false
append-nonempty i [] = refl
append-nonempty i (j ∷ q) = refl

back-nonempty : (i : ℕ) (q : List ℕ) → is i (back? q) ≡ true → is_empty q ≡ false
back-nonempty i [] h = absurd (ground (arith, h))
back-nonempty i (j ∷ q) h = refl

abbrev parsing_of : Bool → ℕ → Option ℕ
parsing_of b i = if b then none else some i

-- A request that is put at the back, unless it is there, in any state of reading. A new front has no
-- response that was not begun.
module _ (i : ℕ) (r : ServerRequest) (c : Conn) (in_turn : is_open c.stream ≡ true → InTurn c.wire)
    (begun_front : is_open c.stream ≡ true → FrontBegun c c.requests)
    (new_front : is_open c.stream ≡ true → is_empty c.requests ≡ true → is_some r.response ≡ false)
    (same_response : is_some r.response ≡ responded c i) where
  abbrev queued : List ℕ → Conn
  queued q = put_request i r (record c { requests = q; parsing = parsing_of r.is_done i })

  unread : (q : List ℕ) → ParsingUnread (queued q) (queued q).parsing
  unread q = by_done r.is_done refl
    where
      by_done : (b : Bool) → r.is_done ≡ b → ParsingUnread (queued q) (parsing_of b i)
      by_done true e = tt
      by_done false e = ground arith

  at_back : (b : Bool) (q : List ℕ) → is i (back? q) ≡ true → ParsingQueued (parsing_of b i) q
  at_back true q h = tt
  at_back false q h = h

  appended-FrontBegun :
      (q : List ℕ)
      → c.requests ≡ q
      → is_open c.stream ≡ true
      → FrontBegun c q
      → FrontBegun (queued (q ++ i ∷ [])) (q ++ i ∷ [])
  appended-FrontBegun [] e h g = λ a. absurd (ground (arith, a, new_front h (ap is_empty e)))
  appended-FrontBegun (j ∷ q) e h g = λ a. g (ground (arith, a, same_response))

  kept-FrontBegun : (q : List ℕ) → FrontBegun c q → FrontBegun (queued c.requests) q
  kept-FrontBegun [] g = tt
  kept-FrontBegun (j ∷ q) g = λ a. g (ground (arith, a, same_response))

  enqueue-IsFlowing :
      IsFlowing (put_request i r (enqueue i (record c { parsing = parsing_of r.is_done i })))
  unfolding enqueue
  enqueue-IsFlowing =
      if_elim (λ (d : Conn). IsFlowing (put_request i r d)) (is i (back? c.requests)) _ _
        (λ h. record {
          ready = record {
            parsing_unread = unread c.requests;
            parsing_queued = λ _ _. at_back r.is_done c.requests h;
            closing_busy = λ _ _. back-nonempty i c.requests h;
            in_turn = in_turn;
          };
          front_begun = λ o. kept-FrontBegun c.requests (begun_front o);
        })
        (λ _. record {
          ready = record {
            parsing_unread = unread (c.requests ++ i ∷ []);
            parsing_queued =
                λ _ _. at_back r.is_done (c.requests ++ i ∷ []) (is-append i c.requests);
            closing_busy = λ _ _. append-nonempty i c.requests;
            in_turn = in_turn;
          };
          front_begun = λ o. appended-FrontBegun c.requests refl o (begun_front o);
        })

pub enqueue-heap : (i : ℕ) (c : Conn) (j : ℕ) → (enqueue i c).heap j ≡ c.heap j
unfolding enqueue
enqueue-heap i c j = ground arith

fresh-FrontBegun : (c : Conn) (q : List ℕ) → FrontBegun c q → FrontBegun (new_request c) q
unfolding new_request new_server_request
fresh-FrontBegun c [] f = tt
fresh-FrontBegun c (j ∷ q) f = λ a. f (ground (arith, a))

pub fresh-responded : (c : Conn) → responded (new_request c) c.next_id ≡ false
unfolding new_request new_server_request
fresh-responded c = ground arith

-- While the parser is in the middle of a request, the queue is not empty.
pub parsing-queued :
    {c : Conn}
    → IsReady c
    → (i : ℕ) → c.parsing ≡ some i
    → is_open c.stream ≡ true
    → is_empty c.requests ≡ true
    → ⊥
parsing-queued {c} v i e h k = by_closing c.closing refl
  where
    by_closing : (b : Bool) → c.closing ≡ b → ⊥
    by_closing true b = ground (arith, k, v.closing_busy h b)
    by_closing false b = ground (
      arith,
      k,
      back-nonempty i c.requests (subst (λ o. ParsingQueued o c.requests) e (v.parsing_queued h b)),
    )

pub take_parsed-IsFlowing : (p : Parsed) (c : Conn) → IsFlowing c → IsFlowing (take_parsed p c)
unfolding take_parsed start_parsing new_request
take_parsed-IsFlowing p c v = by_parsing c.parsing refl
  where
    d : Conn
    d = record c { idle_timer = stop_timer c.idle_timer }

    by_parsing :
        (o : Option ℕ)
        → c.parsing ≡ o
        → let i = parsed_id o c.next_id in
          let c1 = start_parsing o d in
          IsFlowing (
            put_request i
              (record (c1.heap i) {
                is_done = is_done_state p.state;
                keep_alive = p.keep_alive;
                upgrade_header = p.upgrade_header;
                expects_continue = p.expects_continue;
                http_10 = p.http_10;
              })
              (enqueue i (record c1 { parsing = if is_done_state p.state then none else some i })))
    by_parsing none e =
        enqueue-IsFlowing c.next_id _ (new_request d) v.ready.in_turn
          (λ h. fresh-FrontBegun d c.requests (v.front_begun h)) (λ h k. fresh-responded d) refl
    by_parsing (some i) e =
        enqueue-IsFlowing i _ d v.ready.in_turn (λ h. v.front_begun h)
          (λ h k. absurd (parsing-queued v.ready i e h k)) refl

-- A request of which nothing was read, behind the others, and the parser forgets what it held.
pub fresh_request-IsFlowing :
    (c : Conn)
    → IsFlowing c
    → let d = enqueue c.next_id (new_request (record c { parsing = none })) in
      IsFlowing (put_request c.next_id (record (d.heap c.next_id) { is_done = true }) d)
unfolding new_request
fresh_request-IsFlowing c v =
    enqueue-IsFlowing c.next_id (record (d.heap c.next_id) { is_done = true }) c1 v.ready.in_turn
      (λ h. fresh-FrontBegun b c.requests (v.front_begun h))
      (λ h k.
        ap (λ r. is_some r.response) (enqueue-heap c.next_id c1 c.next_id) ∙ fresh-responded b)
      (ap (λ r. is_some r.response) (enqueue-heap c.next_id c1 c.next_id))
  where
    b : Conn
    b = record c { parsing = none }

    c1 : Conn
    c1 = new_request b

    d : Conn
    d = enqueue c.next_id c1
