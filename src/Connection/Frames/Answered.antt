-- ===== src/Connection/Frames/Answered.antt =====
-- A response that the user gives to a request is not mixed with others.
use uni_event_http.Base.{
  ℕ, ◌≡◌, refl, Bool, true, false, none, some, List, [], ◌∷◌, arith, sym, ap, ◌∙◌, subst, is_some,
  ◌==◌, if_elim,
}
use uni_event_http.Connection.State.{
  Conn, ServerResponse, ServerRequest, put_request, put_response, assert, foreign_request,
  no_requests, is, front?,
}
use uni_event_http.Connection.Respond
use uni_event_http.Connection.Respond.{
  count_response, adjust_response, accept_response, write_if_front, response_completed,
  cleanup_request, finish_request,
}
use uni_event_http.Connection.Order.{responded}
use uni_event_http.Connection.Order.Calls.{count_response_lem}
use uni_event_http.Connection.Flow.{is_open}
use uni_event_http.Connection.Frames.{
  unfinished, InFrames, pending_of, pending, HoldsFront, IsRested, IsFramed,
}
use uni_event_http.Connection.Frames.Frame.{same-IsFramed, assert-IsFramed}
use uni_event_http.Connection.Frames.Respond.{write_next_response-IsFramed}

abbrev pub FramedAfter {ℓ} : {A : Type ℓ} → Conn × A → Type 0
FramedAfter r = IsFramed r.0

-- A request whose response is as far as before.
pub put_request-IsFramed :
    (i : ℕ) (r : ServerRequest) (c : Conn)
    → r.is_done ≡ (c.heap i).is_done
    → r.finish_on_receive ≡ (c.heap i).finish_on_receive
    → is_some r.response ≡ responded c i
    → response_completed r.response ≡ response_completed (c.heap i).response
    → IsFramed c
    → IsFramed (put_request i r c)
put_request-IsFramed i r c d f s w v =
    same-IsFramed c (put_request i r c) refl
      (record {
        requests = refl;
        stream = refl;
        given = λ j. ground (arith, s);
        whole = λ j. ground (arith, w);
        ends = λ j. ground (arith, f);
        read = λ j. ground (arith, d);
      })
      v

-- Whatever changed but the response to `i`, which may only become complete.
pub record Answered (i : ℕ) (c d : Conn) : Type 0 where
  pub requests : d.requests ≡ c.requests
  pub stream : d.stream ≡ c.stream
  pub wire : d.wire ≡ c.wire
  pub response : (j : ℕ) → (i == j) ≡ false → (d.heap j).response ≡ (c.heap j).response
  pub more :
      response_completed (c.heap i).response ≡ true → response_completed (d.heap i).response ≡ true
  pub ends : (j : ℕ) → (d.heap j).finish_on_receive ≡ (c.heap j).finish_on_receive
  pub read : (j : ℕ) → (d.heap j).is_done ≡ (c.heap j).is_done

given-HoldsFront : (i : ℕ) (c d : Conn) → Answered i c d → HoldsFront c → HoldsFront d
given-HoldsFront i c d s v j f r =
    let x = v j (sym (s.ends j) ∙ f) (sym (s.read j) ∙ r) in
    record {
      at_front = ap (λ q. is j (front? q)) s.requests ∙ x.at_front;
      whole = by_equal (i == j) refl x.whole;
    }
  where
    by_equal :
        (b : Bool)
        → (i == j) ≡ b
        → response_completed (c.heap j).response ≡ true
        → response_completed (d.heap j).response ≡ true
    by_equal true e w = ground (arith, e, w, s.more)
    by_equal false e w = ap response_completed (s.response j e) ∙ w

pub given-IsFramed :
    (i : ℕ) (c d : Conn)
    → Answered i c d
    → is i (front? d.requests) ≡ false
    → IsFramed c
    → IsFramed d
given-IsFramed i c d s n v = record {
  frames = λ h. subst InFrames (sym s.wire) (v.frames (ap is_open (sym s.stream) ∙ h));
  matches = λ h.
      ap unfinished s.wire
      ∙ v.matches (ap is_open (sym s.stream) ∙ h)
      ∙ ap (pending c) (sym s.requests)
      ∙ same d.requests n;
  holds = λ h. given-HoldsFront i c d s (v.holds (ap is_open (sym s.stream) ∙ h));
}
  where
    same : (q : List ℕ) → is i (front? q) ≡ false → pending c q ≡ pending d q
    same [] n = refl
    same (j ∷ q) n = ap (pending_of j) (sym (s.response j (ground (arith, n))))

given-IsRested :
    (i : ℕ) (c d : Conn)
    → Answered i c d
    → is i (front? c.requests) ≡ true
    → responded c i ≡ false
    → IsFramed c
    → IsRested d
given-IsRested i c d s f n v = record {
  frames = λ h. subst InFrames (sym s.wire) (v.frames (ap is_open (sym s.stream) ∙ h));
  rested = λ h.
      ap unfinished s.wire ∙ v.matches (ap is_open (sym s.stream) ∙ h) ∙ none_pending c.requests f;
  holds = λ h. given-HoldsFront i c d s (v.holds (ap is_open (sym s.stream) ∙ h));
}
  where
    none_pending : (q : List ℕ) → is i (front? q) ≡ true → pending c q ≡ none
    none_pending [] f = refl
    none_pending (j ∷ q) f = ground (arith, f, n)

abbrev pub accepted : ℕ → ServerResponse → Conn → Conn
accepted i s c =
    let c' = count_response (put_response i s c) in put_response i (adjust_response c' s) c'

pub accepted-Answered :
    (i : ℕ) (s : ServerResponse) (c : Conn) → responded c i ≡ false → Answered i c (accepted i s c)
accepted-Answered i s c n =
    subst (λ e. Answered i c (put_response i (adjust_response e s) e))
      (sym (count_response_lem (put_response i s c)))
      (record {
        requests = refl;
        stream = refl;
        wire = refl;
        response = λ j h. ground arith;
        more = λ w. absurd (ground (arith, w, n));
        ends = λ j. ground arith;
        read = λ j. ground arith;
      })

write_if_front-IsFramed :
    (i : ℕ) (c d : Conn)
    → Answered i c d
    → responded c i ≡ false
    → IsFramed c
    → IsFramed (write_if_front i d.requests d)
unfolding write_if_front
write_if_front-IsFramed i c d s n v = by_queue d.requests refl
  where
    by_queue : (q : List ℕ) → d.requests ≡ q → IsFramed (write_if_front i q d)
    by_queue [] e =
        assert-IsFramed false _ d (given-IsFramed i c d s (ap (λ q. is i (front? q)) e) v)
    by_queue (f ∷ r) e =
        if_elim IsFramed (f == i) _ _
          (λ k.
            write_next_response-IsFramed d
              (given-IsRested i c d s (ap (λ q. is i (front? q)) (sym s.requests ∙ e) ∙ k) n v))
          (λ k. given-IsFramed i c d s (ap (λ q. is i (front? q)) e ∙ k) v)

accept_response-IsFramed :
    (i : ℕ) (s : ServerResponse) (c : Conn)
    → responded c i ≡ false
    → IsFramed c
    → IsFramed (accept_response i s c)
unfolding accept_response
accept_response-IsFramed i s c n v =
    write_if_front-IsFramed i c (accepted i s c) (accepted-Answered i s c n) n v

pub assert-responded :
    (b : Bool) (i : ℕ) (c : Conn) → responded (assert b foreign_request c) i ≡ responded c i
assert-responded true i c = refl
assert-responded false i c = refl

pub respond-IsFramed :
    (i : ℕ) (s : ServerResponse) (c : Conn) → IsFramed c → IsFramed (Respond.respond i s c).0
unfolding Respond.respond
respond-IsFramed i s c v =
    let w = assert-IsFramed (c.heap i).connection foreign_request c v in
    if_elim FramedAfter (is_some (c.heap i).response) _ _ (λ _. w)
      (λ n. accept_response-IsFramed i s _ (assert-responded (c.heap i).connection i c ∙ n) w)

pub assert-requests : (b : Bool) (c : Conn) → (assert b no_requests c).requests ≡ c.requests
assert-requests true c = refl
assert-requests false c = refl

-- The front request, whose response is given and not complete, is the one that is unfinished.
pub front-unfinished :
    (i : ℕ) (c : Conn)
    → is i (front? c.requests) ≡ true
    → responded c i ≡ true
    → response_completed (c.heap i).response ≡ false
    → IsFramed c
    → is_open c.stream ≡ true
    → unfinished c.wire ≡ some i
front-unfinished i c f r w v o = v.matches o ∙ by_queue c.requests f
  where
    by_queue : (q : List ℕ) → is i (front? q) ≡ true → pending c q ≡ some i
    by_queue [] f = absurd (ground (arith, f))
    by_queue (j ∷ q) f = ground (arith, f, r, w)
