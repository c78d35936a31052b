-- ===== src/Connection/Flow/Frame.antt =====
-- What flows on when members change, requests are dropped or the stream ends.
use uni_event_http.Base.{
  ℕ, ◌≡◌, refl, Bool, true, false, Option, none, some, List, [], ◌∷◌, arith, ◌∙◌, sym, ap, subst,
  if_elim, is_empty,
}
use uni_event_http.Error.{ErrorCode}
use uni_event_http.Connection.State.{Output, write, Conn, Fault, assert, stop_timer, shut, closed}
use uni_event_http.Connection.Respond.{
  pop_and_finish, notify_dropped, drop_each, drop_requests, do_close, close, shutdown,
  graceful_stop, check_if_idle, start_idle_timer,
}
use uni_event_http.Connection.Order.{begun, responded}
use uni_event_http.Connection.Flow.{
  is_open, InTurn, FrontBegun, ParsingUnread, ParsingQueued, IsReady, IsFlowing,
}

-- What dropping requests leaves alone.
pub record SameState (c d : Conn) : Type 0 where
  pub stream : d.stream ≡ c.stream
  pub closing : d.closing ≡ c.closing
  pub wire : d.wire ≡ c.wire
  pub parsing : d.parsing ≡ c.parsing
  pub read : (i : ℕ) → (d.heap i).is_done ≡ (c.heap i).is_done

drop_one-SameState :
    (err : Option ErrorCode) (i : ℕ) (rest : List ℕ) (c : Conn)
    → SameState c (notify_dropped err i (c.heap i) (pop_and_finish (i ∷ rest) c))
unfolding notify_dropped pop_and_finish
drop_one-SameState err i rest c = record {
  stream = ground arith;
  closing = ground arith;
  wire = ground arith;
  parsing = ground arith;
  read = λ j. ground arith;
}

pub drop_each-SameState :
    (err : Option ErrorCode) (q : List ℕ) (c : Conn) → SameState c (drop_each err q c)
unfolding drop_each
drop_each-SameState err [] c = record {
  stream = refl;
  closing = refl;
  wire = refl;
  parsing = refl;
  read = λ i. refl;
}
drop_each-SameState err (i ∷ rest) c =
    let s =
      drop_each-SameState err rest
        (notify_dropped err i (c.heap i) (pop_and_finish (i ∷ rest) c)) in
    let t = drop_one-SameState err i rest c in
    record {
      stream = s.stream ∙ t.stream;
      closing = s.closing ∙ t.closing;
      wire = s.wire ∙ t.wire;
      parsing = s.parsing ∙ t.parsing;
      read = λ j. s.read j ∙ t.read j;
    }

-- A stream that is not open holds up nothing.
pub shut-IsFlowing : (c : Conn) → ParsingUnread c c.parsing → is_open c.stream ≡ false → IsFlowing c
shut-IsFlowing c u e = record {
  ready = record {
    parsing_unread = u;
    parsing_queued = λ h. absurd (ground (arith, h, e));
    closing_busy = λ h. absurd (ground (arith, h, e));
    in_turn = λ h. absurd (ground (arith, h, e));
  };
  front_begun = λ h. absurd (ground (arith, h, e));
}

pub same-ParsingUnread :
    (c d : Conn)
    → d.parsing ≡ c.parsing
    → ((i : ℕ) → (d.heap i).is_done ≡ (c.heap i).is_done)
    → ParsingUnread c c.parsing
    → ParsingUnread d d.parsing
same-ParsingUnread c d e r u = subst (ParsingUnread d) (sym e) (by_parsing c.parsing u)
  where
    by_parsing : (o : Option ℕ) → ParsingUnread c o → ParsingUnread d o
    by_parsing none u = tt
    by_parsing (some i) u = r i ∙ u

do_close-IsFlowing :
    (err : Option ErrorCode) (soft : Bool) (c : Conn)
    → ParsingUnread c c.parsing
    → IsFlowing (do_close err soft c)
unfolding do_close drop_requests
do_close-IsFlowing err true c u =
    let s = drop_each-SameState err c.requests (record c { stream = shut }) in
    let d = drop_each err c.requests (record c { stream = shut }) in
    shut-IsFlowing d (same-ParsingUnread c d s.parsing s.read u) (ap is_open s.stream)
do_close-IsFlowing err false c u =
    let c' = record c {
      idle_timer = stop_timer c.idle_timer;
      listening = false;
      stream = closed;
    } in
    let s = drop_each-SameState err c.requests c' in
    shut-IsFlowing (record (drop_each err c.requests c') { in_server = false })
      (same-ParsingUnread c (record (drop_each err c.requests c') { in_server = false }) s.parsing
        s.read u)
      (ap is_open s.stream)

pub shutdown-IsFlowing :
    (err : Option ErrorCode) (c : Conn) → ParsingUnread c c.parsing → IsFlowing (shutdown err c)
unfolding shutdown
shutdown-IsFlowing err c u = do_close-IsFlowing err true c u

pub close-IsFlowing :
    (err : Option ErrorCode) (c : Conn) → ParsingUnread c c.parsing → IsFlowing (close err c)
unfolding close
close-IsFlowing err c u = do_close-IsFlowing err false c u

-- A change of members that the flow does not depend on.
pub same-IsReady :
    (c d : Conn)
    → d.requests ≡ c.requests
    → d.stream ≡ c.stream
    → d.closing ≡ c.closing
    → d.parsing ≡ c.parsing
    → (is_open c.stream ≡ true → InTurn c.wire → InTurn d.wire)
    → ((i : ℕ) → (d.heap i).is_done ≡ (c.heap i).is_done)
    → IsReady c
    → IsReady d
same-IsReady c d q t k p w r v = record {
  parsing_unread = same-ParsingUnread c d p r v.parsing_unread;
  parsing_queued = λ h k'.
      subst (λ o. ParsingQueued o d.requests) (sym p)
        (subst (ParsingQueued c.parsing) (sym q)
          (v.parsing_queued (ap is_open (sym t) ∙ h) (sym k ∙ k')));
  closing_busy = λ h k'. ap is_empty q ∙ v.closing_busy (ap is_open (sym t) ∙ h) (sym k ∙ k');
  in_turn = λ h. w (ap is_open (sym t) ∙ h) (v.in_turn (ap is_open (sym t) ∙ h));
}

pub same-FrontBegun :
    (c d : Conn) (q : List ℕ)
    → d.wire ≡ c.wire
    → ((i : ℕ) → responded d i ≡ responded c i)
    → FrontBegun c q
    → FrontBegun d q
same-FrontBegun c d [] w r f = tt
same-FrontBegun c d (i ∷ q) w r f = λ h. ap begun w ∙ f (sym (r i) ∙ h)

pub same-IsFlowing :
    (c d : Conn)
    → d.requests ≡ c.requests
    → d.stream ≡ c.stream
    → d.closing ≡ c.closing
    → d.parsing ≡ c.parsing
    → d.wire ≡ c.wire
    → ((i : ℕ) → (d.heap i).is_done ≡ (c.heap i).is_done)
    → ((i : ℕ) → responded d i ≡ responded c i)
    → IsFlowing c
    → IsFlowing d
same-IsFlowing c d q t k p w r s v = record {
  ready = same-IsReady c d q t k p (λ _ x. subst InTurn (sym w) x) r v.ready;
  front_begun = λ h.
      subst (FrontBegun d) (sym q)
        (same-FrontBegun c d c.requests w s (v.front_begun (ap is_open (sym t) ∙ h)));
}

pub assert-IsFlowing : (b : Bool) (f : Fault) (c : Conn) → IsFlowing c → IsFlowing (assert b f c)
assert-IsFlowing true f c v = v
assert-IsFlowing false f c v = same-IsFlowing c _ refl refl refl refl refl (λ i. refl) (λ i. refl) v

-- Output behind the head of a response.
pub written-IsFlowing :
    (o : Output) (c : Conn)
    → begun (o ∷ c.wire) ≡ begun c.wire
    → (is_open c.stream ≡ true → InTurn c.wire → InTurn (o ∷ c.wire))
    → IsFlowing c
    → IsFlowing (write o c)
written-IsFlowing o c e g v = record {
  ready = same-IsReady c (write o c) refl refl refl refl g (λ i. refl) v.ready;
  front_begun = λ h. by_queue c.requests (v.front_begun h);
}
  where
    by_queue : (q : List ℕ) → FrontBegun c q → FrontBegun (write o c) q
    by_queue [] f = tt
    by_queue (i ∷ q) f = λ a. e ∙ f a

pub check_if_idle-IsFlowing : (c : Conn) → IsFlowing c → IsFlowing (check_if_idle c)
unfolding check_if_idle start_idle_timer
check_if_idle-IsFlowing c v =
    same-IsFlowing c _ (ground arith) (ground arith) (ground arith) (ground arith) (ground arith)
      (λ i. ground arith) (λ i. ground arith) v

pub graceful_stop-IsFlowing : (c : Conn) → IsFlowing c → IsFlowing (graceful_stop c)
unfolding graceful_stop
graceful_stop-IsFlowing c v =
    if_elim IsFlowing (is_empty c.requests) _ _ (λ _. shutdown-IsFlowing _ c v.ready.parsing_unread)
      (λ _. same-IsFlowing c _ refl refl refl refl refl (λ i. refl) (λ i. refl) v)
