-- ===== src/Connection/Frames/Frame.antt =====
-- What keeps the responses apart when members change, requests are dropped or the stream ends.
use uni_event_http.Base.{
  ℕ, ◌≡◌, refl, Bool, true, false, Option, List, [], ◌∷◌, ◌∙◌, sym, ap, subst, arith, is_some,
  if_elim, is_empty,
}
use uni_event_http.Error.{ErrorCode}
use uni_event_http.Connection.State.{
  Output, Conn, Fault, assert, front?, is, write, stop_timer, shut, closed,
}
use uni_event_http.Connection.Respond.{
  response_completed, do_close, close, shutdown, drop_requests, graceful_stop, check_if_idle,
  start_idle_timer,
}
use uni_event_http.Connection.Flow.{is_open}
use uni_event_http.Connection.Flow.Frame.{drop_each-SameState}
use uni_event_http.Connection.Frames.{unfinished, InFrames, pending, HoldsFront, IsFramed}

pub shut-IsFramed : (c : Conn) → is_open c.stream ≡ false → IsFramed c
shut-IsFramed c e = record {
  frames = λ h. absurd (ground (arith, h, e));
  matches = λ h. absurd (ground (arith, h, e));
  holds = λ h. absurd (ground (arith, h, e));
}

do_close-shut :
    (err : Option ErrorCode) (soft : Bool) (c : Conn) → is_open (do_close err soft c).stream ≡ false
unfolding do_close drop_requests
do_close-shut err true c =
    ap is_open (drop_each-SameState err c.requests (record c { stream = shut })).stream
do_close-shut err false c =
    ap is_open
      (drop_each-SameState err c.requests (record c {
        idle_timer = stop_timer c.idle_timer;
        listening = false;
        stream = closed;
      })).stream

pub close-shut : (err : Option ErrorCode) (c : Conn) → is_open (close err c).stream ≡ false
unfolding close
close-shut err c = do_close-shut err false c

pub shutdown-shut : (err : Option ErrorCode) (c : Conn) → is_open (shutdown err c).stream ≡ false
unfolding shutdown
shutdown-shut err c = do_close-shut err true c

pub close-IsFramed : (err : Option ErrorCode) (c : Conn) → IsFramed (close err c)
close-IsFramed err c = shut-IsFramed (close err c) (close-shut err c)

pub shutdown-IsFramed : (err : Option ErrorCode) (c : Conn) → IsFramed (shutdown err c)
shutdown-IsFramed err c = shut-IsFramed (shutdown err c) (shutdown-shut err c)

-- A change that no response and no request to finish notices.
pub record SameFrame (c d : Conn) : Type 0 where
  pub requests : d.requests ≡ c.requests
  pub stream : d.stream ≡ c.stream
  pub given : (j : ℕ) → is_some (d.heap j).response ≡ is_some (c.heap j).response
  pub whole :
      (j : ℕ) → response_completed (d.heap j).response ≡ response_completed (c.heap j).response
  pub ends : (j : ℕ) → (d.heap j).finish_on_receive ≡ (c.heap j).finish_on_receive
  pub read : (j : ℕ) → (d.heap j).is_done ≡ (c.heap j).is_done

same-pending : (c d : Conn) (q : List ℕ) → SameFrame c d → pending d q ≡ pending c q
same-pending c d [] s = refl
same-pending c d (i ∷ q) s = ground (arith, s.given i, s.whole i)

pub same-HoldsFront : (c d : Conn) → SameFrame c d → HoldsFront c → HoldsFront d
same-HoldsFront c d s v j f r =
    let h = v j (sym (s.ends j) ∙ f) (sym (s.read j) ∙ r) in
    record {
      at_front = ap (λ q. is j (front? q)) s.requests ∙ h.at_front;
      whole = s.whole j ∙ h.whole;
    }

pub same-IsFramed : (c d : Conn) → d.wire ≡ c.wire → SameFrame c d → IsFramed c → IsFramed d
same-IsFramed c d w s v = record {
  frames = λ h. subst InFrames (sym w) (v.frames (ap is_open (sym s.stream) ∙ h));
  matches = λ h.
      ap unfinished w
      ∙ v.matches (ap is_open (sym s.stream) ∙ h)
      ∙ sym (same-pending c d c.requests s)
      ∙ ap (pending d) (sym s.requests);
  holds = λ h. same-HoldsFront c d s (v.holds (ap is_open (sym s.stream) ∙ h));
}

pub assert-IsFramed : (b : Bool) (f : Fault) (c : Conn) → IsFramed c → IsFramed (assert b f c)
assert-IsFramed true f c v = v
assert-IsFramed false f c v =
    same-IsFramed c _ refl
      (record {
        requests = refl;
        stream = refl;
        given = λ j. refl;
        whole = λ j. refl;
        ends = λ j. refl;
        read = λ j. refl;
      })
      v

-- Output that leaves as much unfinished as before.
pub written-IsFramed :
    (o : Output) (c : Conn)
    → unfinished (o ∷ c.wire) ≡ unfinished c.wire
    → (is_open c.stream ≡ true → InFrames c.wire → InFrames (o ∷ c.wire))
    → IsFramed c
    → IsFramed (write o c)
written-IsFramed o c e g v = record {
  frames = λ h. g h (v.frames h);
  matches = λ h. e ∙ v.matches h ∙ sym (same c.requests);
  holds = λ h j f r. let x = v.holds h j f r in record { at_front = x.at_front; whole = x.whole };
}
  where
    same : (q : List ℕ) → pending (write o c) q ≡ pending c q
    same [] = refl
    same (i ∷ q) = refl

pub check_if_idle-IsFramed : (c : Conn) → IsFramed c → IsFramed (check_if_idle c)
unfolding check_if_idle start_idle_timer
check_if_idle-IsFramed c v =
    same-IsFramed c _ (ground arith)
      (record {
        requests = ground arith;
        stream = ground arith;
        given = λ j. ground arith;
        whole = λ j. ground arith;
        ends = λ j. ground arith;
        read = λ j. ground arith;
      })
      v

pub graceful_stop-IsFramed : (c : Conn) → IsFramed c → IsFramed (graceful_stop c)
unfolding graceful_stop
graceful_stop-IsFramed c v =
    if_elim IsFramed (is_empty c.requests) _ _ (λ _. shutdown-IsFramed _ c)
      (λ _.
        same-IsFramed c _ refl
          (record {
            requests = refl;
            stream = refl;
            given = λ j. refl;
            whole = λ j. refl;
            ends = λ j. refl;
            read = λ j. refl;
          })
          v)
