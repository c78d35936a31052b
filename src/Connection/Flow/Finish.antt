-- ===== src/Connection/Flow/Finish.antt =====
-- Finishing the front request holds no response back, if what comes next does not.
use uni_event_http.Base.{
  ℕ, ◌≡◌, refl, Bool, true, false, Option, none, some, List, [], ◌∷◌, arith, ◌∙◌, sym, subst, not,
  ◌||◌, if_elim, is_empty, if◌then◌else◌,
}
use uni_event_http.Connection.State.{Conn, put_request, assert, requests_left, not_completed}
use uni_event_http.Connection.Respond.{
  pop_and_finish, finish_front, after_cleanup, cleanup_request, finish_next, response_completed,
}
use uni_event_http.Connection.Order.{responded}
use uni_event_http.Connection.Order.Finish.{cleanup_request-requests}
use uni_event_http.Connection.Flow.{
  is_open, InTurn, FrontBegun, ParsingUnread, ParsingQueued, IsReady, IsFlowing,
}
use uni_event_http.Connection.Flow.Frame.{
  same-ParsingUnread, shutdown-IsFlowing, same-IsFlowing, assert-IsFlowing, check_if_idle-IsFlowing,
}

-- The queue after the front request, which is received in full, was taken from it.
popped-ParsingQueued :
    (c : Conn) (i : ℕ) (rest : List ℕ) (o : Option ℕ)
    → (c.heap i).is_done ≡ true
    → ParsingUnread c o
    → ParsingQueued o (i ∷ rest)
    → ParsingQueued o rest
popped-ParsingQueued c i rest none d u q = tt
popped-ParsingQueued c i [] (some p) d u q = absurd (ground (arith, d, u, q))
popped-ParsingQueued c i (j ∷ rest) (some p) d u q = q

pop_and_finish-read :
    (q : List ℕ) (c : Conn) (j : ℕ) → ((pop_and_finish q c).heap j).is_done ≡ (c.heap j).is_done
unfolding pop_and_finish
pop_and_finish-read [] c j = refl
pop_and_finish-read (i ∷ rest) c j = ground arith

pub cleanup_request-ParsingUnread :
    (c : Conn)
    → ParsingUnread c c.parsing
    → ParsingUnread (cleanup_request c) (cleanup_request c).parsing
unfolding cleanup_request
cleanup_request-ParsingUnread c u =
    same-ParsingUnread c (pop_and_finish c.requests c) (parsing_lem c.requests)
      (pop_and_finish-read c.requests c) u
  where
    parsing_lem : (q : List ℕ) → (pop_and_finish q c).parsing ≡ c.parsing
    parsing_lem q = unfold pop_and_finish in ground arith

cleanup_request-IsReady :
    (i : ℕ) (rest : List ℕ) (c : Conn)
    → c.requests ≡ i ∷ rest
    → (c.heap i).is_done ≡ true
    → c.closing ≡ false
    → IsReady c
    → IsReady (cleanup_request c)
unfolding cleanup_request
cleanup_request-IsReady i rest c e d k v = record {
  parsing_unread = cleanup_request-ParsingUnread c v.parsing_unread;
  parsing_queued = λ h k'.
      subst (λ q. ParsingQueued (pop_and_finish q c).parsing (pop_and_finish q c).requests) (sym e)
        (unfold pop_and_finish in
          popped-ParsingQueued c i rest c.parsing d v.parsing_unread
            (subst (ParsingQueued c.parsing) e (v.parsing_queued (stream_lem c.requests h) k)));
  closing_busy = λ h k'. absurd (ground (arith, closing_lem c.requests, k, k'));
  in_turn = λ h. subst InTurn (sym (wire_lem c.requests)) (v.in_turn (stream_lem c.requests h));
}
  where
    closing_lem : (q : List ℕ) → (pop_and_finish q c).closing ≡ c.closing
    closing_lem q = unfold pop_and_finish in ground arith

    wire_lem : (q : List ℕ) → (pop_and_finish q c).wire ≡ c.wire
    wire_lem q = unfold pop_and_finish in ground arith

    stream_lem : (q : List ℕ) → is_open (pop_and_finish q c).stream ≡ true → is_open c.stream ≡ true
    stream_lem [] h = unfold pop_and_finish in h
    stream_lem (j ∷ q) h = unfold pop_and_finish in h

-- What `write_next_response` must keep, wherever `finish_request` calls it.
abbrev pub Writes : (Conn → Conn) → List ℕ → Type 0
Writes next q =
    (d : Conn) (j : ℕ) (r : List ℕ)
    → q ≡ j ∷ r
    → d.requests ≡ j ∷ r
    → IsReady d
    → IsFlowing (next d)

finish_next-IsFlowing :
    (next : Conn → Conn) (q : List ℕ) (c : Conn)
    → c.requests ≡ q
    → Writes next q
    → IsReady c
    → IsFlowing (finish_next next q c)
unfolding finish_next
finish_next-IsFlowing next [] c e w v =
    check_if_idle-IsFlowing c
      (record { ready = v; front_begun = λ h. subst (FrontBegun c) (sym e) tt })
finish_next-IsFlowing next (j ∷ r) c e w v =
    if_elim IsFlowing (responded c j) _ _ (λ _. w c j r refl e v)
      (λ n. record {
        ready = v;
        front_begun = λ h. subst (FrontBegun c) (sym e) (λ a. absurd (ground (arith, a, n)));
      })

after_cleanup-IsFlowing :
    (next : Conn → Conn) (q : List ℕ) (c : Conn)
    → c.requests ≡ q
    → Writes next q
    → ParsingUnread c c.parsing
    → (c.closing ≡ false → IsReady c)
    → IsFlowing (after_cleanup next c)
unfolding after_cleanup
after_cleanup-IsFlowing next q c e w u v =
    if_elim IsFlowing (c.closing || c.stopping) _ _
      (λ _. shutdown-IsFlowing none _ (asserted (is_empty c.requests)))
      (λ h.
        finish_next-IsFlowing next c.requests c refl (subst (Writes next) (sym e) w)
          (v (ground (arith, h))))
  where
    asserted :
        (b : Bool) → ParsingUnread (assert b requests_left c) (assert b requests_left c).parsing
    asserted true = u
    asserted false = same-ParsingUnread c (assert false requests_left c) refl (λ i. refl) u

cleanup_request-closing : (c : Conn) → (cleanup_request c).closing ≡ c.closing
unfolding cleanup_request pop_and_finish
cleanup_request-closing c = ground arith

finish_checked-IsFlowing :
    (next : Conn → Conn) (i : ℕ) (rest : List ℕ) (c : Conn)
    → c.requests ≡ i ∷ rest
    → Writes next rest
    → IsFlowing c
    → IsFlowing (
        if not (c.heap i).is_done
        then put_request i (record (c.heap i) { finish_on_receive = true }) c
        else after_cleanup next (cleanup_request c))
finish_checked-IsFlowing next i rest c e w v =
    if_elim IsFlowing (not (c.heap i).is_done) _ _
      (λ _.
        same-IsFlowing c (put_request i (record (c.heap i) { finish_on_receive = true }) c) refl
          refl refl refl refl (λ j. ground arith) (λ j. ground arith) v)
      (λ d.
        after_cleanup-IsFlowing next rest (cleanup_request c) (cleanup_request-requests i rest c e)
          w (cleanup_request-ParsingUnread c v.ready.parsing_unread)
          (λ k.
            cleanup_request-IsReady i rest c e (ground (arith, d))
              (sym (cleanup_request-closing c) ∙ k) v.ready))

pub finish_front-IsFlowing :
    (next : Conn → Conn) (i : ℕ) (rest : List ℕ) (c : Conn)
    → c.requests ≡ i ∷ rest
    → Writes next rest
    → IsFlowing c
    → IsFlowing (finish_front next (i ∷ rest) c)
unfolding finish_front
finish_front-IsFlowing next i rest c e w v = by_assert (response_completed (c.heap i).response)
  where
    by_assert :
        (b : Bool)
        → let c' = assert b not_completed c in
          IsFlowing (
            if not (c.heap i).is_done
            then put_request i (record (c.heap i) { finish_on_receive = true }) c'
            else after_cleanup next (cleanup_request c'))
    by_assert true = finish_checked-IsFlowing next i rest c e w v
    by_assert false =
        finish_checked-IsFlowing next i rest (assert false not_completed c) e w
          (assert-IsFlowing false not_completed c v)
