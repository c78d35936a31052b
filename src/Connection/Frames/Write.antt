-- ===== src/Connection/Frames/Write.antt =====
-- Writing the next response and finishing a request keep the responses apart.
use uni_event_http.Base.{
  ℕ, ◌≡◌, refl, Bool, true, false, none, List, [], ◌∷◌, ◌==◌, ◌∙◌, sym, ap, subst, arith, is_some,
  not, ◌||◌, if◌then◌else◌, if_elim, is_empty,
}
use uni_event_http.Connection.State.{
  Conn, not_completed, requests_left, assert, front?, is, put_request,
}
use uni_event_http.Connection.Respond.{
  response_completed, pop_and_finish, cleanup_request, finish_front, after_cleanup, finish_next,
}
use uni_event_http.Connection.Order.Finish.{cleanup_request-requests}
use uni_event_http.Connection.Flow.{is_open}
use uni_event_http.Connection.Frames.{unfinished, InFrames, pending, IsHeld, IsRested, IsFramed}
use uni_event_http.Connection.Frames.Frame.{shutdown-IsFramed, check_if_idle-IsFramed}

-- A response for the front goes out only from a state at rest.
abbrev pub Continues : (Conn → Conn) → List ℕ → Type 0
Continues next q =
    (d : Conn) (j : ℕ) (r : List ℕ)
    → q ≡ j ∷ r
    → d.requests ≡ j ∷ r
    → IsRested d
    → IsFramed (next d)

-- What `cleanup_request` leaves.
pub record Cleaned (i : ℕ) (c d : Conn) : Type 0 where
  pub stream : d.stream ≡ c.stream
  pub wire : d.wire ≡ c.wire
  pub ends : (j : ℕ) → (d.heap j).finish_on_receive ≡ (c.heap j).finish_on_receive
  pub read : (j : ℕ) → (d.heap j).is_done ≡ (c.heap j).is_done

pub cleanup_request-Cleaned : (i : ℕ) (c : Conn) → Cleaned i c (cleanup_request c)
unfolding cleanup_request
cleanup_request-Cleaned i c = by_queue c.requests
  where
    by_queue : (q : List ℕ) → Cleaned i c (pop_and_finish q c)
    by_queue [] =
        unfold pop_and_finish in
        record { stream = refl; wire = refl; ends = λ j. refl; read = λ j. refl }
    by_queue (k ∷ q) =
        unfold pop_and_finish in
        record { stream = refl; wire = refl; ends = λ j. ground arith; read = λ j. ground arith }

cleanup_request-IsRested :
    (i : ℕ) (rest : List ℕ) (c : Conn)
    → c.requests ≡ i ∷ rest
    → (c.heap i).is_done ≡ true
    → response_completed (c.heap i).response ≡ true
    → IsFramed c
    → IsRested (cleanup_request c)
cleanup_request-IsRested i rest c e d w v =
    let s = cleanup_request-Cleaned i c in
    record {
      frames = λ h. subst InFrames (sym s.wire) (v.frames (ap is_open (sym s.stream) ∙ h));
      rested = λ h.
          ap unfinished s.wire
          ∙ v.matches (ap is_open (sym s.stream) ∙ h)
          ∙ ap (pending c) e
          ∙ ground (arith, w);
      holds = λ h j f r.
          let x =
            v.holds (ap is_open (sym s.stream) ∙ h) j (sym (s.ends j) ∙ f) (sym (s.read j) ∙ r) in
          absurd
            (ground (arith, ap (λ q. is j (front? q)) (sym e) ∙ x.at_front, d, sym (s.read j) ∙ r));
    }

pub rested-IsFramed :
    (c : Conn) → (is_open c.stream ≡ true → pending c c.requests ≡ none) → IsRested c → IsFramed c
rested-IsFramed c p v = record {
  frames = v.frames;
  matches = λ h. v.rested h ∙ sym (p h);
  holds = v.holds;
}

finish_next-IsFramed :
    (next : Conn → Conn) (q : List ℕ) (c : Conn)
    → c.requests ≡ q
    → Continues next q
    → IsRested c
    → IsFramed (finish_next next q c)
unfolding finish_next
finish_next-IsFramed next [] c e w v =
    check_if_idle-IsFramed c (rested-IsFramed c (λ _. ap (pending c) e) v)
finish_next-IsFramed next (j ∷ r) c e w v =
    if_elim IsFramed (is_some (c.heap j).response) _ _ (λ _. w c j r refl e v)
      (λ n. rested-IsFramed c (λ _. ap (pending c) e ∙ ground (arith, n)) v)

after_cleanup-IsFramed :
    (next : Conn → Conn) (q : List ℕ) (c : Conn)
    → c.requests ≡ q
    → Continues next q
    → IsRested c
    → IsFramed (after_cleanup next c)
unfolding after_cleanup
after_cleanup-IsFramed next q c e w v =
    if_elim IsFramed (c.closing || c.stopping) _ _
      (λ _. shutdown-IsFramed none (assert (is_empty c.requests) requests_left c))
      (λ _. finish_next-IsFramed next c.requests c refl (subst (Continues next) (sym e) w) v)

-- The request whose end is awaited.
awaited-IsFramed :
    (i : ℕ) (rest : List ℕ) (c : Conn)
    → c.requests ≡ i ∷ rest
    → response_completed (c.heap i).response ≡ true
    → IsFramed c
    → IsFramed (put_request i (record (c.heap i) { finish_on_receive = true }) c)
awaited-IsFramed i rest c e w v = record {
  frames = v.frames;
  matches = λ h. v.matches h ∙ same c.requests;
  holds = λ h j f r. by_equal h j f r (i == j) refl;
}
  where
    d : Conn
    d = put_request i (record (c.heap i) { finish_on_receive = true }) c

    same : (q : List ℕ) → pending c q ≡ pending d q
    same [] = refl
    same (k ∷ q) = ground arith

    by_equal :
        is_open c.stream ≡ true
        → (j : ℕ) → (d.heap j).finish_on_receive ≡ true
        → (d.heap j).is_done ≡ false
        → (b : Bool) → (i == j) ≡ b
        → IsHeld j d
    by_equal h j f r true b = record {
      at_front = ap (λ q. is j (front? q)) e ∙ b;
      whole = ground (arith, b, w);
    }
    by_equal h j f r false b =
        let x = v.holds h j (ground (arith, f, b)) (ground (arith, r, b)) in
        record { at_front = x.at_front; whole = ground (arith, b, x.whole) }

pub finish_front-IsFramed :
    (next : Conn → Conn) (i : ℕ) (rest : List ℕ) (c : Conn)
    → c.requests ≡ i ∷ rest
    → response_completed (c.heap i).response ≡ true
    → Continues next rest
    → IsFramed c
    → IsFramed (finish_front next (i ∷ rest) c)
unfolding finish_front
finish_front-IsFramed next i rest c e h w v = by_assert (response_completed (c.heap i).response) h
  where
    by_assert :
        (b : Bool)
        → b ≡ true
        → let c' = assert b not_completed c in
          IsFramed (
            if not (c.heap i).is_done
            then put_request i (record (c.heap i) { finish_on_receive = true }) c'
            else after_cleanup next (cleanup_request c'))
    by_assert true k =
        if_elim IsFramed (not (c.heap i).is_done) _ _ (λ _. awaited-IsFramed i rest c e h v)
          (λ d.
            after_cleanup-IsFramed next rest (cleanup_request c)
              (cleanup_request-requests i rest c e) w
              (cleanup_request-IsRested i rest c e (ground (arith, d)) h v))
    by_assert false k = absurd (ground (arith, k))
