-- ===== src/Connection/Calls.antt =====
-- What the user may call on the objects of a connection: ServerRequest.icc, ServerResponse.icc and
-- the public members of ServerConnection.h. A call whose connection is gone does nothing.
use uni_event_http.Base.{
  ℕ, Bool, true, false, not, ◌||◌, Option, none, some, List, [], ◌∷◌, if◌then◌else◌,
}
use uni_event_http.Error.{
  ErrorCode, HttpError, http, upgrade_wrong_request, operation_canceled, connection_aborted,
  chunk_after_completed,
}
use uni_event_http.Connection.State.{
  Chunk, ServerResponse, UpgradeHeader, absent, Conn, put_request,
}
use uni_event_http.Connection.Respond
use uni_event_http.Connection.Respond.{response_completed, Upgrade, refused}

unfoldable pub request_respond : ℕ → ServerResponse → Conn → Conn × Option HttpError
request_respond i s c = if not (c.heap i).connection then (c, none) else Respond.respond i s c

unfoldable pub request_send_continue : ℕ → Conn → Conn × Option HttpError
request_send_continue i c =
    if not (c.heap i).connection then (c, none) else Respond.send_continue i c

-- `new ServerResponse(302, Headers().location(uri))`.
abbrev pub redirection : ServerResponse
redirection = record {
  code = 302;
  chunked = false;
  body = [];
  keep_alive = true;
  has_date = false;
  completed = false;
}

unfoldable pub request_redirect : ℕ → Conn → Conn × Option HttpError
request_redirect i c = request_respond i redirection c

unfoldable pub request_drop : ℕ → Conn → Conn
request_drop i c =
    if not (c.heap i).connection || response_completed (c.heap i).response
    then c
    else Respond.close (some operation_canceled) c

-- `iequals(headers.connection(), "upgrade")`.
abbrev pub asks_upgrade : UpgradeHeader → Bool
asks_upgrade absent = false
asks_upgrade _ = true

unfoldable pub request_upgrade : ℕ → Conn → Conn × Upgrade
request_upgrade i c =
    if not (c.heap i).connection
    then (c, refused connection_aborted)
    else if not (asks_upgrade (c.heap i).upgrade_header)
    then (c, refused (http upgrade_wrong_request))
    else Respond.upgrade i c

unfoldable pub enable_partial : ℕ → Conn → Conn
enable_partial i c = put_request i (record (c.heap i) { partial = true }) c

-- A response that was given to no request has no `_request`.
unfoldable pub response_send_chunk :
    ℕ → Option ServerResponse → Chunk → Conn → Conn × Option HttpError
response_send_chunk i none chunk c = (c, none)
response_send_chunk i (some s) chunk c =
    if s.completed
    then (c, some chunk_after_completed)
    else if not (c.heap i).connection
    then (c, none)
    else (Respond.send_chunk i s chunk c, none)

unfoldable pub response_send_final_chunk :
    ℕ → Option ServerResponse → Chunk → Conn → Conn × Option HttpError
response_send_final_chunk i none chunk c = (c, none)
response_send_final_chunk i (some s) chunk c =
    if s.completed
    then (c, some chunk_after_completed)
    else if not (c.heap i).connection
    then (c, none)
    else (Respond.send_final_chunk i s chunk c, none)

-- One call; `i` names a request, or the response that it was given.
pub data Call : Type 0 where
  respond : ℕ → ServerResponse → Call
  send_chunk send_final_chunk : ℕ → Chunk → Call
  send_continue redirect drop upgrade partial : ℕ → Call
  close shutdown : Option ErrorCode → Call
  graceful_stop : Call

-- An exception is caught by the code that made the call.
unfoldable pub call : Call → Conn → Conn
call (respond i s) c = (request_respond i s c).0
call (send_chunk i chunk) c = (response_send_chunk i (c.heap i).response chunk c).0
call (send_final_chunk i chunk) c = (response_send_final_chunk i (c.heap i).response chunk c).0
call (send_continue i) c = (request_send_continue i c).0
call (redirect i) c = (request_redirect i c).0
call (drop i) c = request_drop i c
call (upgrade i) c = (request_upgrade i c).0
call (partial i) c = enable_partial i c
call (close err) c = Respond.close err c
call (shutdown err) c = Respond.shutdown err c
call graceful_stop c = Respond.graceful_stop c

unfoldable pub calls : List Call → Conn → Conn
calls [] c = c
calls (k ∷ ks) c = calls ks (call k c)
