-- ===== src/Client/Idle.antt =====
-- What holds of a client between any two things that happen to it: kept by requests.
pub mod Redirect
pub mod Steps
use uni_event_http.Base.{
  ℕ, ◌≡◌, refl, Bool, true, false, not, ◌&&◌, ◌||◌, Option, none, some, List, [], ◌∷◌, arith, ap,
  sym, subst, ◌∙◌, ◌+◌, ◌==◌, ltb, u16, if◌then◌else◌, is_some, is_empty, if_elim,
}
use uni_event_http.Error.{
  ErrorCode, HttpError, http, no_host, nested, connect_error, timed_out, operation_canceled,
}
use uni_event_http.Pool.State.{NetLoc}
use uni_event_http.Client.State.{
  Scheme, Uri, Request, Response, Event, RedirectContext, resets, Client, netloc, check_uri,
  cleanup_after_redirect,
}
use uni_event_http.Client.Request.{
  with_scheme, needs_connection, context_fails, proxy_refused, drop_connection, reconnect, prepare,
  set_up, send, emit, request_to, request_checked, request, release_connection, finish_and_notify,
  final_error, putback, finish_with, finish_if, finish_request, cancel,
}
use uni_event_http.Client.Redirect.{
  Reaction, goes_on, cancels, throws, adjust_method, resolve, redirected, context_of, same_peer,
  follow, follow_uri, react, redirect_to, redirect, analyze, analyze_request, is_redirect,
}
use uni_event_http.Client.Finish.{Notified, cancel-Notified}
use uni_event_http.Client.Read.{
  Parsed, ParseState, take_response, round, on_read, on_eof, on_connect, on_write, time_out,
  notify_part, cancel_if, is_done_state, is_done, is_in_headers, hides_part, check_send_chunk,
  send_chunk, send_final_chunk, send_checked, send_final_checked, Delivery, asked, canceled,
  data_read, read_failed, connect_done, write_done, timer_fired, end_of_file, sends_chunk,
  sends_final_chunk, step,
}

-- The request has a URI with a host.
abbrev pub Hosted : Option Request → Type 0
Hosted none = Unit {0}
Hosted (some r) = check_uri r.uri ≡ none

-- A client with no request has no connection that keeps the event loop running, and a request that it
-- has has a URI with a host.
pub record IsSound (c : Client) : Type 0 where
  pub quiet : is_some c.request ≡ false → (c.connected && not c.weak) ≡ false
  pub hosted : Hosted c.request

-- The client after a call of `request`, or a round of `on_read`.
abbrev pub SoundAfter : Client × Option HttpError × Request → Type 0
SoundAfter t = IsSound t.0

abbrev HostedAfter : Client × Option HttpError × Request → Type 0
HostedAfter t = Hosted t.0.request

module _ (default_port : Scheme → ℕ) where
  request_to-IsSound :
      (u : Uri) (r : Request) (c : Client)
      → is_empty u.host ≡ false
      → Hosted c.request
      → IsSound (request_to default_port u r c).0
  unfolding send reconnect set_up prepare check_uri
  request_to-IsSound u r c h s =
      if_elim (SoundAfter)
        (needs_connection
          (netloc default_port (with_scheme u)
            (record r { active = true; uri = some (with_scheme u) }))
          (record r { active = true; uri = some (with_scheme u) }) c)
        _ _
        (λ _.
          if_elim (SoundAfter)
            (context_fails (with_scheme u) (record r { active = true; uri = some (with_scheme u) }))
            _ _ (λ _. record { quiet = λ _. refl; hosted = s })
            (λ _.
              if_elim (SoundAfter) (proxy_refused r.proxy) _ _
                (λ _. record { quiet = λ _. refl; hosted = s })
                (λ _. record { quiet = λ e. cc; hosted = rw h refl })))
        (λ _. record { quiet = λ e. cc; hosted = rw h refl })

  request_checked-IsSound :
      (o : Option Uri) (f : Option HttpError) (r : Request) (c : Client)
      → check_uri o ≡ f
      → IsSound c
      → IsSound (request_checked default_port o f r c).0
  unfolding check_uri
  request_checked-IsSound o (some f) r c e s = s
  request_checked-IsSound none none r c e s = s
  request_checked-IsSound (some u) none r c e s = request_to-IsSound u r c (ground arith) s.hosted

  pub request-IsSound :
      (r : Request) (c : Client) → IsSound c → IsSound (request default_port r c).0
  unfolding request
  request-IsSound r c s =
      if_elim (SoundAfter) (is_some c.request) _ _ (λ _. s)
        (λ _.
          if_elim (SoundAfter) r.active _ _ (λ _. s)
            (λ _. request_checked-IsSound r.uri (check_uri r.uri) r c refl s))

  -- A request with a host is refused only together with the connection.
  pub request_valid-IsSound :
      (o : Option Uri) (f : Option HttpError) (r : Request) (c : Client)
      → check_uri o ≡ f
      → f ≡ none
      → Hosted c.request
      → IsSound (request_checked default_port o f r c).0
  unfolding check_uri
  request_valid-IsSound o (some f) r c e z h = cc
  request_valid-IsSound none none r c e z h = cc
  request_valid-IsSound (some u) none r c e z h = request_to-IsSound u r c (ground arith) h

  request_checked-Hosted :
      (o : Option Uri) (f : Option HttpError) (r : Request) (c : Client)
      → check_uri o ≡ f
      → Hosted c.request
      → Hosted (request_checked default_port o f r c).0.request
  unfolding check_uri
  request_checked-Hosted o (some f) r c e h = h
  request_checked-Hosted none none r c e h = h
  request_checked-Hosted (some u) none r c e h = (request_to-IsSound u r c (ground arith) h).hosted

  request-Hosted :
      (r : Request) (c : Client) → Hosted c.request → Hosted (request default_port r c).0.request
  unfolding request
  request-Hosted r c h =
      if_elim HostedAfter (is_some c.request) _ _ (λ _. h)
        (λ _.
          if_elim HostedAfter r.active _ _ (λ _. h)
            (λ _. request_checked-Hosted r.uri (check_uri r.uri) r c refl h))

  pub putback-Hosted :
      (queued : Option Request) (c : Client)
      → Hosted c.request
      → Hosted (putback default_port queued c).request
  putback-Hosted none c h = h
  putback-Hosted (some r) c h = request-Hosted r _ h

  putback-IsSound :
      (queued : Option Request) (c : Client) → IsSound c → IsSound (putback default_port queued c)
  putback-IsSound none c s = record { quiet = s.quiet; hosted = s.hosted }
  putback-IsSound (some r) c s = request-IsSound r _ (record { quiet = s.quiet; hosted = s.hosted })

  release_connection-IsSound :
      (now : ℕ) (err : Option ErrorCode) (res : Option Response) (r : Request) (events : List Event)
      (c : Client)
      → c.request ≡ none
      → IsSound (record (release_connection err res r c) {
        form_field = none;
        last_activity_time = now;
        events = events;
      })
  unfolding release_connection drop_connection
  release_connection-IsSound now err res r events c e = record {
    quiet = λ _. ground arith;
    hosted = subst Hosted (sym request_none) tt;
  }
    where
      request_none : (release_connection err res r c).request ≡ none
      request_none = ground arith

  pub finish_request-IsSound :
      (now : ℕ) (queued : Option Request) (err : Option ErrorCode) (c : Client)
      → IsSound c
      → IsSound (finish_request default_port now queued err c)
  unfolding finish_request finish_with finish_and_notify
  finish_request-IsSound now queued err c s = by_request c.request
    where
      by_request : (o : Option Request) → IsSound (finish_if default_port now queued err o c)
      by_request none = s
      by_request (some r) =
          let before =
            release_connection-IsSound now (final_error err r) c.response r _
              (record c { request = none; response = none }) refl in
          let after =
            if_elim IsSound c.pooled _ _ (λ _. putback-IsSound queued _ before) (λ _. before) in
          record { quiet = after.quiet; hosted = after.hosted }

  pub cancel-IsSound :
      (now : ℕ) (queued : Option Request) (err : ErrorCode) (c : Client)
      → IsSound c
      → IsSound (cancel default_port now queued err c)
  unfolding cancel
  cancel-IsSound now queued err c s =
      if_elim IsSound (is_some c.request) _ _
        (λ _.
          finish_request-IsSound now queued (some err) _
            (record { quiet = s.quiet; hosted = s.hosted }))
        (λ _. s)
