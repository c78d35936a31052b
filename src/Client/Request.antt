-- ===== src/Client/Request.antt =====
-- One request on a client: `Client::request` up to `Client::finish_request` (Client.cc), and
-- `Request::finish_and_notify` (Request.icc). The user's handlers of `partial_event` and
-- `response_event` make no call back into the client.
use uni_event_http.Base.{
  ℕ, Bool, true, false, not, ◌&&◌, ◌||◌, Option, none, some, List, [], ◌∷◌, ◌==◌, if◌then◌else◌,
  is_some,
}
use uni_event_http.Error.{
  ErrorCode, HttpError, http, transfer_aborted, one_request_at_a_time, already_in_progress,
  bad_proxy, no_verify_paths,
}
use uni_event_http.Pool.State.{NetLoc, netloc_eq}
use uni_event_http.Client.State.{
  Scheme, no_scheme, is_http, is_socks5, Uri, Header, HeaderName, accept_encoding, Proxy, Request,
  Response, Event, partial_event, response_event, PoolCall, put_back, uses_ssl, uses_socks,
  connects, sends, resets, writes_form, stops_item, is_https, Client, netloc, check_uri,
  cleanup_after_redirect,
}
use uni_event_http.Client.State
use uni_event_http.Client.Form.{FormPiece, FormRun, send_items}

abbrev pub emit : Event → Client → Client
emit e c = record c { events = e ∷ c.events }

abbrev pub call_pool : PoolCall → Client → Client
call_pool k c = record c { pool_calls = k ∷ c.pool_calls }

-- `drop_connection`: the request is out of the way while the stream is reset.
unfoldable pub drop_connection : Client → Client
drop_connection c = emit resets (record c { connected = false })

abbrev pub with_scheme : Uri → Uri
with_scheme u = record u { scheme = elim u.scheme [ no_scheme ↦ State.http | s ↦ s ] }

abbrev is_accept_encoding : HeaderName → Bool
is_accept_encoding accept_encoding = true
is_accept_encoding _ = false

unfoldable pub has_accept_encoding : List Header → Bool
has_accept_encoding [] = false
has_accept_encoding (h ∷ hs) = is_accept_encoding h.name || has_accept_encoding hs

-- A proxy of another scheme is refused.
abbrev pub proxy_refused : Option Proxy → Bool
proxy_refused none = false
proxy_refused (some p) = not (is_socks5 p.uri.scheme) && not (is_http p.uri.scheme)

-- Whether a connection has to be made.
abbrev pub needs_connection : NetLoc → Request → Client → Bool
needs_connection n r c = not c.connected || not (netloc_eq c.netloc n) || not r.keep_alive

-- `get_default_ssl_context` throws: the request has no SSL context of its own, is to check certificates,
-- and the context for that cannot be made.
abbrev pub context_fails : Uri → Request → Bool
context_fails u r =
    is_https u.scheme && (not (is_some r.ssl_ctx) && (r.ssl_check_cert && r.verify_paths_fail))

-- The connection is dropped, if there is one, and the SSL filter for the request's URI set up, if its
-- context can be had.
unfoldable pub set_up : Uri → Request → Client → Client
set_up u r c =
    let before = if c.connected then resets ∷ c.events else c.events in
    record c {
      connected = false;
      events =
          if is_https u.scheme && not (context_fails u r)
          then uses_ssl r.ssl_ctx r.ssl_check_cert ∷ before
          else before;
    }

abbrev proxy_events : Option Proxy → (resolves : Bool) → List Event → List Event
proxy_events none resolves before = before
proxy_events (some p) resolves before =
    if is_socks5 p.uri.scheme then uses_socks p resolves ∷ before else before

unfoldable pub reconnect : NetLoc → Uri → Request → Client → Client
unfolding set_up
reconnect n u r c =
    let timeout = if r.connect_timeout == 0 then r.timeout else r.connect_timeout in
    record c {
      connected = true;
      netloc = n;
      events =
          connects n timeout r.tcp_nodelay r.tcp_hints
          ∷ proxy_events r.proxy r.proxy_resolve (set_up u r c).events;
    }

-- The request as it is written.
unfoldable pub prepare_head : Request → Request
prepare_head r = record r {
  timer_active = if r.timeout == 0 then r.timer_active else true;
  identity_only =
      if r.identity_only && not (has_accept_encoding r.headers) then false else r.identity_only;
}

-- A request after a run of `send_form`.
unfoldable pub formed : FormRun → Request → Request
formed f r = record r {
  form = f.items;
  transfer_completed = if is_some f.form_field then r.transfer_completed else true;
}

-- The request after it was sent.
unfoldable pub prepare : Request → Request
unfolding prepare_head formed
prepare r = record (prepare_head r) {
  form = if r.form_streaming then (formed (send_items 0 r.form) r).form else r.form;
  transfer_completed =
      if r.form_streaming
      then (formed (send_items 0 r.form) r).transfer_completed
      else if not r.chunked || r.has_body
      then true
      else r.transfer_completed;
}

unfoldable pub form_events : List FormPiece → List Event → List Event
form_events [] before = before
form_events (p ∷ pieces) before = form_events pieces (writes_form p ∷ before)

-- What a run of `send_form` does to the client.
unfoldable pub run_form : FormRun → Client → Client
unfolding form_events
run_form f c = record c { form_field = f.form_field; events = form_events f.pieces c.events }

unfoldable pub send : Request → Client → Client
unfolding prepare_head run_form
send r c =
    let c' = record c { events = sends (prepare_head r) ∷ c.events } in
    let formed = run_form (send_items 0 r.form) c' in
    record c {
      request = some (prepare r);
      weak = false;
      has_context = true;
      form_field = if r.form_streaming then formed.form_field else c.form_field;
      events = if r.form_streaming then formed.events else c'.events;
    }

unfoldable pub finish_and_notify : Request → Option Response → Option ErrorCode → Client → Client
finish_and_notify r res err c =
    let r' = record (cleanup_after_redirect r) { redirection_counter = 0; timer_active = false } in
    emit (response_event r' res err) (emit (partial_event r' res err) c)

-- The error that a request finishes with.
unfoldable pub final_error : Option ErrorCode → Request → Option ErrorCode
final_error (some e) r = some e
final_error none r = if r.transfer_completed then none else some (http transfer_aborted)

abbrev pub response_keeps : Option Response → Bool
response_keeps none = false
response_keeps (some res) = res.keep_alive

-- The connection is dropped after an error, or if either side does not keep it.
unfoldable pub release_connection : Option ErrorCode → Option Response → Request → Client → Client
release_connection err res r c =
    if is_some err || not (response_keeps res) || not r.keep_alive
    then drop_connection c
    else record c { weak = true }

-- The item of the form that is being streamed stops.
abbrev pub stop_events : Option ℕ → List Event → List Event
stop_events none before = before
stop_events (some k) before = stops_item k ∷ before

module _ (default_port : Scheme → ℕ) where
  -- `request`, after `check`; the request object's `_client` and scheme are set first. The third part
  -- is the request as the call leaves it where it throws.
  abbrev pub request_to : Uri → Request → Client → Client × Option HttpError × Request
  request_to u r c =
      let r' = record r { active = true; uri = some (with_scheme u) } in
      let n = netloc default_port (with_scheme u) r' in
      if needs_connection n r' c
      then if context_fails (with_scheme u) r'
        then (set_up (with_scheme u) r' c, some no_verify_paths, r')
        else if proxy_refused r'.proxy
        then (set_up (with_scheme u) r' c, some bad_proxy, r')
        else (send r' (reconnect n (with_scheme u) r' c), none, prepare r')
      else (send r' c, none, prepare r')

  abbrev pub request_checked :
      Option Uri → Option HttpError → Request → Client → Client × Option HttpError × Request
  request_checked u (some e) r c = (c, some e, r)
  request_checked none none r c = (c, none, r)
  request_checked (some u) none r c = request_to u r c

  unfoldable pub request : Request → Client → Client × Option HttpError × Request
  request r c =
      if is_some c.request
      then (c, some one_request_at_a_time, r)
      else if r.active
      then (c, some already_in_progress, r)
      else request_checked r.uri (check_uri r.uri) r c

  -- The pool's `putback`, which hands the client the request `queued`, if one waits.
  abbrev pub putback : Option Request → Client → Client
  putback none c = call_pool (put_back c.netloc) c
  putback (some r) c = (request r (call_pool (put_back c.netloc) c)).0

  -- `now` is the loop's time.
  unfoldable pub finish_with :
      ℕ → Option Request → Option ErrorCode → Request → Option Response → Client → Client
  finish_with now queued err r res c =
      let c1 =
        release_connection (final_error err r) res r
          (record c { request = none; response = none }) in
      let c2 = record c1 {
        form_field = none;
        last_activity_time = now;
        events = stop_events c1.form_field c1.events;
      } in
      finish_and_notify r res (final_error err r) (if c.pooled then putback queued c2 else c2)

  abbrev pub finish_if : ℕ → Option Request → Option ErrorCode → Option Request → Client → Client
  finish_if now queued err none c = c
  finish_if now queued err (some r) c = finish_with now queued err r c.response c

  -- `finish_request`; its callers have a request.
  unfoldable pub finish_request : ℕ → Option Request → Option ErrorCode → Client → Client
  finish_request now queued err c = finish_if now queued err c.request c

  unfoldable pub cancel : ℕ → Option Request → ErrorCode → Client → Client
  cancel now queued err c =
      if is_some c.request
      then finish_request now queued (some err) (record c {
        has_context = false;
        redirect_canceled = if c.in_redirect then true else c.redirect_canceled;
      })
      else c
