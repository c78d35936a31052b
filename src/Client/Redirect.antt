-- ===== src/Client/Redirect.antt =====
-- What a client does with a whole response: `analyze_request` and the parts of `on_read`, `on_eof`
-- and `timed_out` around it (Client.cc).
use uni_event_http.Base.{
  ℕ, ◌+◌, Bool, true, false, not, ◌&&◌, ◌||◌, Option, none, some, List, [], ◌∷◌, ◌==◌, ltb, u16,
  if◌then◌else◌, is_empty,
}
use uni_event_http.Error.{
  ErrorCode, http, unexpected_redirect, redirection_limit, no_redirect_uri, operation_canceled,
}
use uni_event_http.Server.Config.{eq_bytes}
use uni_event_http.Pool.State.{NetLoc}
use uni_event_http.Client.State.{
  Scheme, no_scheme, Uri, HeaderName, authorization, cookie, host_header, referer, Header, Request,
  Response, RedirectContext, continue_event, redirect_event, pool_request, resets, Client, netloc,
  cleanup_after_redirect,
}
use uni_event_http.Client.Request.{emit, call_pool, request, putback, finish_request, cancel}

pub is_redirect : ℕ → Bool
is_redirect code =
    code == 300 || code == 301 || code == 302 || code == 303 || code == 307 || code == 308

abbrev pub names_removed : HeaderName → Bool
names_removed authorization = true
names_removed cookie = true
names_removed host_header = true
names_removed referer = true
names_removed _ = false

-- The names are compared with their case.
abbrev pub is_removed : Header → Bool
is_removed h = h.exact_case && names_removed h.name

-- The loop over the headers: what stays, and what is moved to the context.
unfoldable pub kept : List Header → List Header
kept [] = []
kept (h ∷ hs) = if is_removed h then kept hs else h ∷ kept hs

unfoldable pub removed : List Header → List Header
removed [] = []
removed (h ∷ hs) = if is_removed h then h ∷ removed hs else removed hs

-- The Location, completed from the request's own URI.
abbrev pub scheme_or : Scheme → Scheme → Scheme
scheme_or no_scheme s = s
scheme_or t s = t

unfoldable pub resolve : Uri → Uri → Uri
resolve prev u =
    let u' = record u { scheme = scheme_or u.scheme prev.scheme } in
    if is_empty u.host
    then record u' {
      host = prev.host;
      explicit_port = if prev.explicit_port == 0 then u.explicit_port else prev.explicit_port;
    }
    else u'

unfoldable pub context_of : Uri → Request → RedirectContext
context_of prev r = record {
  uri = some prev;
  ssl_ctx = r.ssl_ctx;
  cookies = r.cookies;
  removed_headers = removed r.headers;
}

-- The request before `redirect_event`.
unfoldable pub redirected : Uri → Uri → Request → Request
redirected prev location r = record r {
  uri = some (resolve prev location);
  headers = kept r.headers;
  cookies = [];
  ssl_ctx = none;
}

-- What the user's handlers of `redirect_event` do: change the request, cancel it, or throw.
pub data Reaction : Type 0 where
  goes_on : Request → Reaction
  cancels : ErrorCode → Reaction
  throws : Reaction

-- After the event a 303 makes the request a GET with no body.
unfoldable pub adjust_method : ℕ → Request → Request
adjust_method code r = if code == 303 then record r { is_get = true; has_body = false } else r

abbrev pub same_peer : NetLoc → NetLoc → Bool
same_peer a b = eq_bytes a.host b.host && a.port == b.port

module _ (default_port : Scheme → ℕ) (on_redirect : RedirectContext → Request → Reaction) where
  -- The request leaves the client, and goes to the pool or starts on the same client again.
  unfoldable pub follow : ℕ → Option Request → Response → Uri → Request → Client → Client
  follow now queued res u r c =
      let c1 = record c { request = none; response = none } in
      let c2 = if res.keep_alive then c1 else emit resets (record c1 { connected = false }) in
      let r' = cleanup_after_redirect r in
      if c.pooled && not (same_peer (netloc default_port u r) c.netloc)
      then call_pool (pool_request r')
          (record (putback default_port queued (record c2 { last_activity_time = now })) {
            weak = true;
          })
      else (request default_port r' c2).0

  abbrev pub follow_uri : ℕ → Option Request → Response → Option Uri → Request → Client → Client
  follow_uri now queued res none r c = c
  follow_uri now queued res (some u) r c = follow now queued res u r c

  abbrev pub react : ℕ → Option Request → Response → Reaction → Client → Client
  react now queued res (goes_on r) c =
      follow_uri now queued res r.uri (adjust_method res.code r)
        (record c { request = some (adjust_method res.code r); in_redirect = false })
  react now queued res (cancels err) c =
      record (cancel default_port now queued err (record c { in_redirect = true })) {
        in_redirect = false;
        redirect_canceled = false;
      }
  react now queued res throws c =
      cancel default_port now queued operation_canceled
        (record c { in_redirect = false; redirect_canceled = false })

  -- From the Location on; `r` has its counter raised.
  abbrev pub redirect_to :
      ℕ → Option Request → Response → Option Uri → Option Uri → Request → Client → Client
  redirect_to now queued res prev none r c =
      cancel default_port now queued (http no_redirect_uri) (record c { request = some r })
  redirect_to now queued res none (some location) r c = c
  redirect_to now queued res (some prev) (some location) r c =
      let r' = redirected prev location r in
      react now queued res (on_redirect (context_of prev r) r')
        (emit (redirect_event (context_of prev r)) (record c { request = some r' }))

  unfoldable pub redirect : ℕ → Option Request → Response → Request → Client → Client
  redirect now queued res r c =
      if r.redirection_limit == 0
      then cancel default_port now queued (http unexpected_redirect) c
      else let n = u16 (r.redirection_counter + 1) in
        let r' = record r { redirection_counter = n } in
        if ltb r.redirection_limit n
        then cancel default_port now queued (http redirection_limit)
            (record c { request = some r' })
        else redirect_to now queued res r.uri res.location r' c

  abbrev pub analyze : ℕ → Option Request → Option Request → Option Response → Client → Client
  analyze now queued (some r) (some res) c =
      if res.code == 100
      then record (emit continue_event c) { response = none }
      else if r.follow_redirect && is_redirect res.code
      then redirect now queued res r c
      else finish_request default_port now queued none c
  analyze now queued _ _ c = c

  -- `analyze_request`; its callers have a request and a response.
  unfoldable pub analyze_request : ℕ → Option Request → Client → Client
  analyze_request now queued c = analyze now queued c.request c.response c
