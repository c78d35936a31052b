-- ===== src/Connection/Order/Finish.antt =====
-- Writing the next response and finishing a request keep the order of the responses.
use uni_event_http.Base.{
  ℕ, ◌≤◌, ◌≡◌, refl, Bool, true, false, Option, none, some, List, [], ◌∷◌, ◌⊎◌, arith, ◌∙◌, sym,
  subst, is_some, not, ◌||◌, if_elim, inl, inr,
}
use uni_event_http.Error.{ErrorCode}
use uni_event_http.Connection.State.{
  Conn, ServerResponse, ServerRequest, put_request, Fault, assert, requests_left, not_completed,
}
use uni_event_http.Connection.Respond.{
  pop_and_finish, close, shutdown, finish_front, after_cleanup, cleanup_request, finish_next,
  holds_chunks, start_response, write_response, write_next, write_next_response, finish_request,
  response_completed,
}
use uni_event_http.Connection.Order.{begun, IsOrdered, responded, Fits, FrontFits, ParsingFits}
use uni_event_http.Connection.Order.Respond.{
  pop_and_finish-IsOrdered, check_if_idle-IsOrdered, write_chunks-IsOrdered,
  start_response-IsOrdered, start_response-requests, do_close-IsOrdered,
}

-- Nothing was begun for the front of the queue.
abbrev FrontFree : Conn → List ℕ → Type 0
FrontFree c [] = Unit {0}
FrontFree c (j ∷ _) = begun c.wire ≤ j

-- What `write_next_response` must keep, wherever `finish_request` calls it.
abbrev Keeps : (Conn → Conn) → List ℕ → Type 0
Keeps next q =
    (d : Conn) (j : ℕ) (r : List ℕ)
    → q ≡ j ∷ r
    → d.requests ≡ j ∷ r
    → begun d.wire ≤ j
    → IsOrdered d
    → IsOrdered (next d)

pub put_request-IsOrdered :
    (i : ℕ) (r : ServerRequest) (c : Conn)
    → (responded c i ≡ true → is_some r.response ≡ true)
    → IsOrdered c
    → IsOrdered (put_request i r c)
put_request-IsOrdered i r c h v = record {
  in_order = v.in_order;
  rising = v.rising;
  front_fits = front c.requests v.front_fits;
  parsing_fits = parsing c.parsing v.parsing_fits;
  begun_bounded = v.begun_bounded;
}
  where
    fits : (j : ℕ) → Fits c j → Fits (put_request i r c) j
    fits j f = ground arith

    front : (q : List ℕ) → FrontFits c q → FrontFits (put_request i r c) q
    front [] f = tt
    front (j ∷ _) f = fits j f

    parsing : (o : Option ℕ) → ParsingFits c o → ParsingFits (put_request i r c) o
    parsing none f = tt
    parsing (some j) f = (f.0, fits j f.1)

pub assert-IsOrdered : (b : Bool) (f : Fault) (c : Conn) → IsOrdered c → IsOrdered (assert b f c)
assert-IsOrdered true f c v = v
assert-IsOrdered false f c v = ground arith

assert-wire : (b : Bool) (f : Fault) (c : Conn) → (assert b f c).wire ≡ c.wire
assert-wire true f c = refl
assert-wire false f c = refl

pub assert-heap : (b : Bool) (f : Fault) (c : Conn) → (assert b f c).heap ≡ c.heap
assert-heap true f c = refl
assert-heap false f c = refl

assert-requests : (b : Bool) (f : Fault) (c : Conn) → (assert b f c).requests ≡ c.requests
assert-requests true f c = refl
assert-requests false f c = refl

pub shutdown-IsOrdered :
    (err : Option ErrorCode) (c : Conn) → IsOrdered c → IsOrdered (shutdown err c)
unfolding shutdown
shutdown-IsOrdered err c v = do_close-IsOrdered err true c v

pub close-IsOrdered : (err : Option ErrorCode) (c : Conn) → IsOrdered c → IsOrdered (close err c)
unfolding close
close-IsOrdered err c v = do_close-IsOrdered err false c v

finish_next-IsOrdered :
    (next : Conn → Conn) (q : List ℕ) (c : Conn)
    → c.requests ≡ q
    → FrontFree c q
    → Keeps next q
    → IsOrdered c
    → IsOrdered (finish_next next q c)
unfolding finish_next
finish_next-IsOrdered next [] c e f h v = check_if_idle-IsOrdered c v
finish_next-IsOrdered next (j ∷ r) c e f h v = let w = h c j r refl e f v in ground (arith, w)

after_cleanup-IsOrdered :
    (next : Conn → Conn) (q : List ℕ) (c : Conn)
    → c.requests ≡ q
    → FrontFree c q
    → Keeps next q
    → IsOrdered c
    → IsOrdered (after_cleanup next c)
unfolding after_cleanup
after_cleanup-IsOrdered next q c e f h v =
    if_elim IsOrdered (c.closing || c.stopping) _ _
      (λ _. shutdown-IsOrdered none _ (assert-IsOrdered _ requests_left c v))
      (λ _.
        finish_next-IsOrdered next c.requests c refl (subst (FrontFree c) (sym e) f)
          (subst (Keeps next) (sym e) h) v)

pub cleanup_request-IsOrdered : (c : Conn) → IsOrdered c → IsOrdered (cleanup_request c)
unfolding cleanup_request
cleanup_request-IsOrdered c v = pop_and_finish-IsOrdered c.requests c refl v

pub cleanup_request-requests :
    (i : ℕ) (rest : List ℕ) (c : Conn) → c.requests ≡ i ∷ rest → (cleanup_request c).requests ≡ rest
unfolding cleanup_request pop_and_finish
cleanup_request-requests i rest c e = rw e refl

cleanup_request-FrontFree :
    (i : ℕ) (rest : List ℕ) (c : Conn)
    → c.requests ≡ i ∷ rest
    → IsOrdered c
    → FrontFree (cleanup_request c) rest
unfolding cleanup_request pop_and_finish
cleanup_request-FrontFree i [] c e v = tt
cleanup_request-FrontFree i (j ∷ rest) c e v = rw e (ground arith)

finish_front-IsOrdered :
    (next : Conn → Conn) (i : ℕ) (rest : List ℕ) (c : Conn)
    → c.requests ≡ i ∷ rest
    → Keeps next rest
    → IsOrdered c
    → IsOrdered (finish_front next (i ∷ rest) c)
unfolding finish_front
finish_front-IsOrdered next i rest c e h v =
    if_elim IsOrdered (not (c.heap i).is_done) _ _
      (λ _.
        put_request-IsOrdered i _ c'
          (λ a.
            ground (arith, assert-heap (response_completed (c.heap i).response) not_completed c))
          w)
      (λ _.
        after_cleanup-IsOrdered next rest (cleanup_request c')
          (cleanup_request-requests i rest c' e') (cleanup_request-FrontFree i rest c' e' w) h
          (cleanup_request-IsOrdered c' w))
  where
    c' : Conn
    c' = assert (response_completed (c.heap i).response) not_completed c

    e' : c'.requests ≡ i ∷ rest
    e' = assert-requests (response_completed (c.heap i).response) not_completed c ∙ e

    w : IsOrdered c'
    w = assert-IsOrdered (response_completed (c.heap i).response) not_completed c v

write_response-IsOrdered :
    (next : Conn → Conn) (i : ℕ) (rest : List ℕ) (s : Option ServerResponse) (c : Conn)
    → c.requests ≡ i ∷ rest
    → begun c.wire ≤ i
    → Keeps next rest
    → IsOrdered c
    → IsOrdered (write_response next i rest s c)
unfolding write_response
write_response-IsOrdered next i rest none c e b h v = ground arith
write_response-IsOrdered next i rest (some s) c e b h v =
    if_elim IsOrdered s.completed _ _ (λ _. finish (start_response-requests i rest s c e))
      (λ _.
        if_elim IsOrdered (holds_chunks s) _ _ (λ _. write_chunks-IsOrdered i s.body c' w) (λ _. w))
  where
    c' : Conn
    c' = start_response i rest s c

    w : IsOrdered c'
    w = start_response-IsOrdered i rest s c e b v

    finish :
        (c'.requests ≡ i ∷ rest) ⊎ (c'.requests ≡ i ∷ [])
        → IsOrdered (finish_front next c'.requests c')
    finish (inl q) =
        subst (λ z. IsOrdered (finish_front next z c')) (sym q)
          (finish_front-IsOrdered next i rest c' q h w)
    finish (inr q) =
        subst (λ z. IsOrdered (finish_front next z c')) (sym q)
          (finish_front-IsOrdered next i [] c' q (λ d j r a. absurd (cc)) w)

write_next-IsOrdered :
    (q : List ℕ) (c : Conn)
    → c.requests ≡ q
    → FrontFree c q
    → IsOrdered c
    → IsOrdered (write_next q c)
unfolding write_next
write_next-IsOrdered [] c e f v = ground arith
write_next-IsOrdered (i ∷ rest) c e f v =
    write_response-IsOrdered (write_next rest) i rest (c.heap i).response c e f
      (rest_keeps rest (write_next-IsOrdered rest)) v
  where
    rest_keeps :
        (q : List ℕ)
        → ((d : Conn) → d.requests ≡ q → FrontFree d q → IsOrdered d → IsOrdered (write_next q d))
        → Keeps (write_next q) q
    rest_keeps q ih d j r a g b x = ih d (g ∙ sym a) (subst (FrontFree d) (sym a) b) x

FrontFree-requests :
    (d : Conn) (j : ℕ) (r : List ℕ) → d.requests ≡ j ∷ r → begun d.wire ≤ j → FrontFree d d.requests
FrontFree-requests d j r e b = subst (FrontFree d) (sym e) b

pub write_next_response-IsOrdered :
    (c : Conn) (j : ℕ) (r : List ℕ)
    → c.requests ≡ j ∷ r
    → begun c.wire ≤ j
    → IsOrdered c
    → IsOrdered (write_next_response c)
unfolding write_next_response
write_next_response-IsOrdered c j r e b v =
    write_next-IsOrdered c.requests c refl (FrontFree-requests c j r e b) v

pub finish_request-IsOrdered : (c : Conn) → IsOrdered c → IsOrdered (finish_request c)
unfolding finish_request
finish_request-IsOrdered c v = by_queue c.requests refl
  where
    by_queue : (q : List ℕ) → c.requests ≡ q → IsOrdered (finish_front write_next_response q c)
    by_queue [] e = unfold finish_front in ground arith
    by_queue (i ∷ rest) e =
        finish_front-IsOrdered write_next_response i rest c e
          (λ d j r _ f b w. write_next_response-IsOrdered d j r f b w) v
