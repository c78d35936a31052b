-- ===== src/Connection/Errors.antt =====
-- What `request_error` does after the user's callback: an answer is given to a request that the
-- callback may have dropped.
use uni_event_http.Base.{
  ℕ, ◌≡◌, true, false, Option, none, List, [], ◌∷◌, ◌∙◌, ap, subst, sym, arith, if◌then◌else◌,
}
use uni_event_http.Error.{ErrorCode}
use uni_event_http.Connection.State.{
  Chunk, Event, error_event, partial_event, Conn, ServerResponse, emit, read_ignore, front_of_empty,
  foreign_request, put_response,
}
use uni_event_http.Connection.Respond
use uni_event_http.Connection.Respond.{
  do_close, close, accept_response, adjust_response, count_response, write_if_front,
}
use uni_event_http.Connection.Calls.{Call, drop, call, calls, request_drop}
use uni_event_http.Connection.Read.{request_error, dispatch, answer_error}
use uni_event_http.Connection.Order.Calls.{count_response_lem}
use uni_event_http.Connection.Drop.{emptied, drop_requests_lem}

-- The only request, unanswered and still connected.
pub record IsUnanswered (i : ℕ) (c : Conn) : Type 0 where
  pub queue : c.requests ≡ i ∷ []
  pub unanswered : (c.heap i).response ≡ none
  pub connected : (c.heap i).connection ≡ true
  pub whole : (c.heap i).partial ≡ false

-- The same request after it was dropped.
record IsGone (i : ℕ) (c : Conn) : Type 0 where
  queue : c.requests ≡ []
  unanswered : (c.heap i).response ≡ none
  gone : (c.heap i).connection ≡ false

request_drop-IsGone :
    (i : ℕ) (c : Conn)
    → IsUnanswered i c
    → IsGone i (request_drop i c) × ((request_drop i c).faults ≡ c.faults)
unfolding request_drop close do_close emptied
request_drop-IsGone i c h =
    rw drop_requests_lem (ground (arith, h.queue, h.unanswered, h.connected))

accept_response-faults :
    (i : ℕ) (s : ServerResponse) (c : Conn)
    → c.requests ≡ []
    → (accept_response i s c).faults ≡ front_of_empty ∷ c.faults
unfolding accept_response
accept_response-faults i s c e =
    subst (λ q. (write_if_front i q d').faults ≡ front_of_empty ∷ c.faults) (sym f)
      (unfold write_if_front in ap (λ fs. front_of_empty ∷ fs) g)
  where
    d : Conn
    d = count_response (put_response i s c)

    d' : Conn
    d' = put_response i (adjust_response d s) d

    f : d.requests ≡ []
    f = ap (λ (z : Conn). z.requests) (count_response_lem (put_response i s c)) ∙ e

    g : d.faults ≡ c.faults
    g = ap (λ (z : Conn). z.faults) (count_response_lem (put_response i s c))

respond-IsGone :
    (i : ℕ) (s : ServerResponse) (c : Conn)
    → IsGone i c
    → (Respond.respond i s c).0.faults ≡ front_of_empty ∷ foreign_request ∷ c.faults
unfolding Respond.respond
respond-IsGone i s c h = rw (h.unanswered, h.gone) (accept_response-faults i s _ h.queue)

module _ (page : ℕ → Chunk) (user : Event → Conn → List Call) where
  dispatch-IsGone :
      (e : Event) (i : ℕ) (c : Conn)
      → ((d : Conn) → user e d ≡ drop i ∷ [])
      → IsUnanswered i c
      → IsGone i (dispatch page user e c) × ((dispatch page user e c).faults ≡ c.faults)
  unfolding dispatch calls call
  dispatch-IsGone e i c u h = rw u (
      request_drop-IsGone i (emit e c) (record {
        queue = h.queue;
        unanswered = h.unanswered;
        connected = h.connected;
        whole = h.whole;
      }))

  answer_error-faults :
      (i : ℕ) (c : Conn)
      → IsGone i c
      → (answer_error page user i (c.heap i).response c).faults
        ≡ front_of_empty ∷ foreign_request ∷ c.faults
  unfolding answer_error
  answer_error-faults i c h = rw h.unanswered (respond-IsGone i _ c h)

-- If the user's handler of `error_event` drops the request that the event is about, and that is the
-- only one in the queue and has no answer, then `request_error` goes on to answer it: the assertion
-- that the request belongs to the connection fails, and the front of the empty queue is read.
pub drop_in_error_event :
    (page : ℕ → Chunk) (user : Event → Conn → List Call) (i : ℕ) (err : Option ErrorCode) (c : Conn)
    → ((d : Conn) → user (error_event i err) d ≡ drop i ∷ [])
    → IsUnanswered i c
    → (request_error page user i err c).faults ≡ front_of_empty ∷ foreign_request ∷ c.faults
unfolding request_error
drop_in_error_event page user i err c u h =
    subst
      (λ b.
        let d =
          dispatch page user (if b then partial_event i err else error_event i err)
            (read_ignore c) in
        (answer_error page user i (d.heap i).response d).faults
        ≡ front_of_empty ∷ foreign_request ∷ c.faults)
      (sym h.whole)
      (answer_error-faults page user i _ g.0 ∙ ap (λ fs. front_of_empty ∷ foreign_request ∷ fs) g.1)
  where
    g :
        IsGone i (dispatch page user (error_event i err) (read_ignore c))
        × ((dispatch page user (error_event i err) (read_ignore c)).faults ≡ c.faults)
    g = dispatch-IsGone page user (error_event i err) i (read_ignore c) u (record {
      queue = h.queue;
      unanswered = h.unanswered;
      connected = h.connected;
      whole = h.whole;
    })
