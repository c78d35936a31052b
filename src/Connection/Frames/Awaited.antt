-- ===== src/Connection/Frames/Awaited.antt =====
-- While it is told that it is received, the request that ends then stays at the front.
use uni_event_http.Base.{
  ℕ, ◌≡◌, refl, Bool, true, false, some, List, [], ◌∷◌, ◌++◌, arith, sym, ap, ◌∙◌, subst,
  if◌then◌else◌, is_some, not, ◌||◌, ◌==◌, if_elim, is_empty,
}
use uni_event_http.Connection.State.{
  Fault, Chunk, Conn, ServerResponse, ServerRequest, put_request, put_response, assert,
  foreign_request, no_requests, is, front?, write, body_chunk, final_chunk,
}
use uni_event_http.Connection.Respond
use uni_event_http.Connection.Respond.{
  count_response, adjust_response, accept_response, write_if_front, response_completed,
  cleanup_request, finish_request,
}
use uni_event_http.Connection.Order.{responded}
use uni_event_http.Connection.Order.Calls.{count_response_lem}
use uni_event_http.Connection.Flow.{is_open}
use uni_event_http.Connection.Frames.{IsHeld}
use uni_event_http.Connection.Frames.Answered.{accepted, accepted-Answered, assert-responded}
use uni_event_http.Connection.Frames.Steady.{
  Steady, unchanged-Steady, both-Steady, assert-Steady, write_next_response-Steady,
  finish_request-Steady,
}

-- The request is received, and if it ends now, it is at the front with its whole response.
pub record Awaits (i : ℕ) (c : Conn) : Type 0 where
  pub done : (c.heap i).is_done ≡ true
  pub held : is_open c.stream ≡ true → (c.heap i).finish_on_receive ≡ true → IsHeld i c

pub record Keeps (i : ℕ) (c d : Conn) : Type 0 where
  pub steady : Steady i c d
  pub kept : is_open d.stream ≡ true → IsHeld i c → IsHeld i d

pub kept-Awaits : (i : ℕ) (c d : Conn) → Keeps i c d → Awaits i c → Awaits i d
kept-Awaits i c d k v = record {
  done = k.steady.read ∙ v.done;
  held = λ h f. k.kept h (v.held (k.steady.stream h) (sym k.steady.ends ∙ f));
}

abbrev pub KeptAfter {ℓ} : {A : Type ℓ} → ℕ → Conn → Conn × A → Type 0
KeptAfter i c r = Keeps i c r.0

pub unchanged-Keeps : (i : ℕ) (c : Conn) → Keeps i c c
unchanged-Keeps i c = record { steady = unchanged-Steady i c; kept = λ _ x. x }

both-Keeps : (i : ℕ) (c d e : Conn) → Keeps i c d → Keeps i d e → Keeps i c e
both-Keeps i c d e k l = record {
  steady = both-Steady i c d e k.steady l.steady;
  kept = λ h x. l.kept h (k.kept (l.steady.stream h) x);
}

assert-Keeps : (i : ℕ) (b : Bool) (f : Fault) (c : Conn) → Keeps i c (assert b f c)
assert-Keeps i true f c = unchanged-Keeps i c
assert-Keeps i false f c = record {
  steady = assert-Steady i false f c;
  kept = λ _ x. record { at_front = x.at_front; whole = x.whole };
}

-- A stream that is not open any more.
pub shut-Keeps : (i : ℕ) (c d : Conn) → Steady i c d → is_open d.stream ≡ false → Keeps i c d
shut-Keeps i c d s e = record { steady = s; kept = λ h. absurd (ground (arith, h, e)) }

-- A request that is held has its whole response, so one without is another.
other :
    (i j : ℕ) (c : Conn)
    → IsHeld i c
    → response_completed (c.heap j).response ≡ false
    → (j == i) ≡ false
other i j c h w = by_equal (j == i) refl
  where
    by_equal : (b : Bool) → (j == i) ≡ b → (j == i) ≡ false
    by_equal true e = absurd (ground (arith, e, h.whole, w))
    by_equal false e = e

not_front : (i j : ℕ) (c : Conn) → IsHeld i c → (j == i) ≡ false → is j (front? c.requests) ≡ false
not_front i j c h n = by_queue c.requests h.at_front
  where
    by_queue : (q : List ℕ) → is i (front? q) ≡ true → is j (front? q) ≡ false
    by_queue [] f = absurd (ground (arith, f))
    by_queue (k ∷ q) f = ground (arith, f, n)

pub put_request-Keeps :
    (i j : ℕ) (r : ServerRequest) (c : Conn)
    → r.is_done ≡ (c.heap j).is_done
    → r.finish_on_receive ≡ (c.heap j).finish_on_receive
    → (response_completed (c.heap j).response ≡ true → response_completed r.response ≡ true)
    → Keeps i c (put_request j r c)
put_request-Keeps i j r c d f w = record {
  steady = record { stream = λ h. h; read = ground (arith, d); ends = ground (arith, f) };
  kept = λ _ x. record { at_front = x.at_front; whole = ground (arith, w, x.whole) };
}

accepted-Steady : (i j : ℕ) (s : ServerResponse) (c : Conn) → Steady i c (accepted j s c)
accepted-Steady i j s c =
    subst (λ e. Steady i c (put_response j (adjust_response e s) e))
      (sym (count_response_lem (put_response j s c)))
      (record { stream = λ h. h; read = ground arith; ends = ground arith })

write_if_front-Steady :
    (i j : ℕ) (q : List ℕ) (c : Conn)
    → (c.heap i).is_done ≡ true
    → Steady i c (write_if_front j q c)
unfolding write_if_front
write_if_front-Steady i j [] c d = assert-Steady i false _ c
write_if_front-Steady i j (f ∷ q) c d =
    if_elim (Steady i c) (f == j) _ _ (λ _. write_next_response-Steady i c d)
      (λ _. unchanged-Steady i c)

write_if_front-kept :
    (i j : ℕ) (q : List ℕ) (c : Conn)
    → c.requests ≡ q
    → (j == i) ≡ false
    → IsHeld i c
    → IsHeld i (write_if_front j q c)
unfolding write_if_front
write_if_front-kept i j [] c e n h =
    absurd (ground (arith, ap (λ q. is i (front? q)) (sym e) ∙ h.at_front))
write_if_front-kept i j (f ∷ q) c e n h =
    if_elim (IsHeld i) (f == j) _ _
      (λ k. absurd (ground (arith, k, n, ap (λ q. is i (front? q)) (sym e) ∙ h.at_front))) (λ _. h)

accept_response-Keeps :
    (i j : ℕ) (s : ServerResponse) (c : Conn)
    → responded c j ≡ false
    → (c.heap i).is_done ≡ true
    → Keeps i c (accept_response j s c)
unfolding accept_response
accept_response-Keeps i j s c n d =
    let a = accepted-Steady i j s c in
    let g = accepted-Answered j s c n in
    record {
      steady =
          both-Steady i c (accepted j s c) _ a
            (write_if_front-Steady i j (accepted j s c).requests (accepted j s c) (a.read ∙ d));
      kept = λ h x.
          let o = other i j c x (ground (arith, n)) in
          write_if_front-kept i j (accepted j s c).requests (accepted j s c) refl o (record {
            at_front = ap (λ q. is i (front? q)) g.requests ∙ x.at_front;
            whole = ap response_completed (g.response i o) ∙ x.whole;
          });
    }

pub respond-Keeps :
    (i j : ℕ) (s : ServerResponse) (c : Conn)
    → (c.heap i).is_done ≡ true
    → Keeps i c (Respond.respond j s c).0
unfolding Respond.respond
respond-Keeps i j s c d =
    let w = assert-Keeps i (c.heap j).connection foreign_request c in
    if_elim (KeptAfter i c) (is_some (c.heap j).response) _ _ (λ _. w)
      (λ n. both-Keeps i c (assert (c.heap j).connection foreign_request c) _ w (
        accept_response-Keeps i j s _ (assert-responded (c.heap j).connection j c ∙ n)
          (w.steady.read ∙ d)))

pub send_chunk-Keeps :
    (i j : ℕ) (s : ServerResponse) (chunk : Chunk) (c : Conn)
    → (c.heap j).response ≡ some s
    → Keeps i c (Respond.send_chunk j s chunk c)
unfolding Respond.send_chunk
send_chunk-Keeps i j s chunk c n = by_assert (not (is_empty c.requests))
  where
    sent :
        (d : Conn)
        → (d.heap j).response ≡ some s
        → Keeps i d (
            if is_empty chunk
            then d
            else if is j (front? c.requests)
            then write (body_chunk j chunk) d
            else put_response j (record s { body = s.body ++ chunk ∷ [] }) d)
    sent d n =
        if_elim (Keeps i d) (is_empty chunk) _ _ (λ _. unchanged-Keeps i d)
          (λ _.
            if_elim (Keeps i d) (is j (front? c.requests)) _ _
              (λ _. record {
                steady = record { stream = λ h. h; read = refl; ends = refl };
                kept = λ _ x. record { at_front = x.at_front; whole = x.whole };
              })
              (λ _. put_request-Keeps i j _ d refl refl (λ w. sym (ap response_completed n) ∙ w)))

    by_assert :
        (b : Bool)
        → let d = assert b no_requests c in
          Keeps i c (
            if is_empty chunk
            then d
            else if is j (front? c.requests)
            then write (body_chunk j chunk) d
            else put_response j (record s { body = s.body ++ chunk ∷ [] }) d)
    by_assert true = sent c n
    by_assert false =
        both-Keeps i c (assert false no_requests c) _ (assert-Keeps i false no_requests c)
          (sent (assert false no_requests c) n)

pub send_final_chunk-Keeps :
    (i j : ℕ) (s : ServerResponse) (chunk : Chunk) (c : Conn)
    → (c.heap j).response ≡ some s
    → s.completed ≡ false
    → (c.heap i).is_done ≡ true
    → Keeps i c (Respond.send_final_chunk j s chunk c)
unfolding Respond.send_final_chunk
send_final_chunk-Keeps i j s chunk c n w d = by_assert (not (is_empty c.requests))
  where
    sent :
        (e : Conn)
        → e.requests ≡ c.requests
        → (e.heap j).response ≡ some s
        → (e.heap i).is_done ≡ true
        → Keeps i e (
            if not (is j (front? c.requests))
            then put_response j (record s { completed = true }) e
            else finish_request
                (write (final_chunk j chunk) (put_response j (record s { completed = true }) e)))
    sent e q n d =
        if_elim (Keeps i e) (not (is j (front? c.requests))) _ _
          (λ _. put_request-Keeps i j _ e refl refl (λ _. refl))
          (λ f.
            let t =
              write (final_chunk j chunk) (put_response j (record s { completed = true }) e) in
            let a : Steady i e t = record {
              stream = λ h. h;
              read = ground arith;
              ends = ground arith;
            } in
            record {
              steady = both-Steady i e t _ a (finish_request-Steady i t (a.read ∙ d));
              kept = λ _ x. absurd (
                  ground (
                    arith,
                    f,
                    ap (λ q. is j (front? q)) q,
                    not_front i j e x (other i j e x (ap response_completed n ∙ w)),
                  ));
            })

    by_assert :
        (b : Bool)
        → let e = put_response j (record s { completed = true }) (assert b no_requests c) in
          Keeps i c (
            if not (is j (front? c.requests))
            then e
            else finish_request (write (final_chunk j chunk) e))
    by_assert true = sent c refl n d
    by_assert false =
        both-Keeps i c (assert false no_requests c) _ (assert-Keeps i false no_requests c)
          (sent (assert false no_requests c) refl n d)

pub send_continue-Keeps : (i j : ℕ) (c : Conn) → Keeps i c (Respond.send_continue j c).0
unfolding Respond.send_continue
send_continue-Keeps i j c =
    let w = assert-Keeps i (not (is_empty c.requests)) no_requests c in
    if_elim (KeptAfter i c) (not (is j (front? c.requests))) _ _ (λ _. w)
      (λ _.
        if_elim (KeptAfter i c) (not (c.heap j).expects_continue || (c.heap j).http_10) _ _ (λ _. w)
          (λ _.
            if_elim (KeptAfter i c) (is_some (c.heap j).response) _ _ (λ _. w)
              (λ _. both-Keeps i c (assert (not (is_empty c.requests)) no_requests c) _ w (record {
                steady = record { stream = λ h. h; read = refl; ends = refl };
                kept = λ _ x. record { at_front = x.at_front; whole = x.whole };
              }))))
