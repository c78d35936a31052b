-- ===== src/Client/State.antt =====
-- The objects of a client: `Request` and `Response` (Request.h, Response.h), the members of `Client`
-- (Client.h), and the checks and conversions of Request.h. A text is its bytes, and an SSL context the
-- number by which the program knows it. The URI is what the URI library returns for its parts.
use uni_event_http.Base.{
  ℕ, Bool, true, false, Option, none, some, List, [], ◌==◌, if◌then◌else◌, is_empty,
}
use uni_event_http.Error.{ErrorCode, HttpError, no_uri, no_host}
use uni_event_http.Pool.State.{NetLoc}
use uni_event_http.Client.Form.{FormItem, FormPiece}

-- The schemes that the code tells apart; `no_scheme` is an empty one.
pub data Scheme : Type 0 where
  no_scheme http https socks5 : Scheme
  other_scheme : ℕ → Scheme

-- `explicit_port` is 0 where the URI names none.
pub record Uri : Type 0 where
  pub scheme : Scheme
  pub host : List ℕ
  pub explicit_port : ℕ
  pub rest : List ℕ

abbrev pub is_http : Scheme → Bool
is_http http = true
is_http _ = false

-- `secure()`.
abbrev pub is_https : Scheme → Bool
is_https https = true
is_https _ = false

abbrev pub is_socks5 : Scheme → Bool
is_socks5 socks5 = true
is_socks5 _ = false

-- The names of headers that the code looks for, whatever the case of their letters.
pub data HeaderName : Type 0 where
  authorization cookie host_header referer accept_encoding user_agent : HeaderName
  other_header : ℕ → HeaderName

-- `exact_case` tells whether the letters of the name have the case of the code's own word for it, as in
-- `Cookie`. Most of the code ignores case; a redirect does not.
pub record Header : Type 0 where
  pub name : HeaderName
  pub exact_case : Bool
  pub value : List ℕ

-- A proxy's URI has an identity, by which locations are compared.
pub record Proxy : Type 0 where
  pub id : ℕ
  pub uri : Uri

-- `active` tells whether `_client` is set, `identity_only` whether no compression is asked for, and
-- `is_get` whether the method is GET. `verify_paths_fail` is what the SSL library answers: whether the
-- default SSL context that checks certificates cannot be made when this request needs it.
pub record Request : Type 0 where
  pub uri : Option Uri
  pub headers : List Header
  pub cookies : List ℕ
  pub has_body : Bool
  pub chunked : Bool
  pub is_get : Bool
  pub keep_alive : Bool
  pub identity_only : Bool
  pub timeout : ℕ
  pub connect_timeout : ℕ
  pub tcp_nodelay : Bool
  pub tcp_hints : ℕ
  pub follow_redirect : Bool
  pub redirection_limit : ℕ
  pub redirection_counter : ℕ
  pub ssl_ctx : Option ℕ
  pub ssl_check_cert : Bool
  pub verify_paths_fail : Bool
  pub proxy : Option Proxy
  pub proxy_resolve : Bool
  pub form_streaming : Bool
  pub form : List FormItem
  pub transfer_completed : Bool
  pub active : Bool
  pub timer_active : Bool

-- `location` is the parsed Location header, if there is one that is not empty; `is_done` tells
-- whether the response was received in full.
pub record Response : Type 0 where
  pub code : ℕ
  pub keep_alive : Bool
  pub location : Option Uri
  pub is_done : Bool

-- What a redirect took away from the request.
pub record RedirectContext : Type 0 where
  pub uri : Option Uri
  pub ssl_ctx : Option ℕ
  pub cookies : List ℕ
  pub removed_headers : List Header

-- `port()` is the port that the URI names, or the URI library's default for its scheme.
module _ (default_port : Scheme → ℕ) where
  abbrev pub port : Uri → ℕ
  port u = if u.explicit_port == 0 then default_port u.scheme else u.explicit_port

  unfoldable pub netloc_of : Uri → Request → NetLoc
  netloc_of u r = record {
    host = u.host;
    port = port u;
    ssl_ctx = r.ssl_ctx;
    proxy = elim r.proxy [ none ↦ none | some p ↦ some p.id ];
    ssl_check_cert = r.ssl_check_cert;
  }

  abbrev proxy_netloc : Uri → NetLoc
  proxy_netloc u = record {
    host = u.host;
    port = port u;
    ssl_ctx = none;
    proxy = none;
    ssl_check_cert = false;
  }

  abbrev pub netloc_with : Uri → Request → Option Proxy → NetLoc
  netloc_with u r none = netloc_of u r
  netloc_with u r (some p) = if is_http p.uri.scheme then proxy_netloc p.uri else netloc_of u r

  -- `NetLoc netloc () const`.
  unfoldable pub netloc : Uri → Request → NetLoc
  netloc u r = netloc_with u r r.proxy

-- `check`.
unfoldable pub check_uri : Option Uri → Option HttpError
check_uri none = some no_uri
check_uri (some u) = if is_empty u.host then some no_host else none

-- `cleanup_after_redirect`.
unfoldable pub cleanup_after_redirect : Request → Request
cleanup_after_redirect r = record r { active = false; transfer_completed = false }

-- What the user is told, and what is asked of the stream. `connects` has the time-out, whether Nagle's
-- algorithm is off, and the hints; `uses_ssl` is the SSL filter, of the
-- request's own context or a default one, and `uses_socks` the SOCKS proxy that is put in between.
pub data Event : Type 0 where
  continue_event : Event
  redirect_event : RedirectContext → Event
  partial_event response_event : Request → Option Response → Option ErrorCode → Event
  uses_ssl : Option ℕ → (verifies : Bool) → Event
  uses_socks : Proxy → (resolves : Bool) → Event
  connects : NetLoc → (timeout : ℕ) → (nodelay : Bool) → (hints : ℕ) → Event
  sends : Request → Event
  resets : Event
  writes writes_final : List ℕ → Event
  writes_form : FormPiece → Event
  stops_item : ℕ → Event

-- The calls of the pool: the client goes back, from its location, and a redirected request goes there.
pub data PoolCall : Type 0 where
  put_back : NetLoc → PoolCall
  pool_request : Request → PoolCall

-- `form_field` is the item of the form that is being streamed, and `pool_calls` holds the newest first;
-- `has_context` tells whether the parser has a request to read the response of, and `weak` whether the
-- connection keeps the event loop running no longer.
pub record Client : Type 0 where
  pub pooled : Bool
  pub connected : Bool
  pub netloc : NetLoc
  pub request : Option Request
  pub response : Option Response
  pub has_context : Bool
  pub last_activity_time : ℕ
  pub in_redirect : Bool
  pub redirect_canceled : Bool
  pub form_field : Option ℕ
  pub weak : Bool
  pub events : List Event
  pub pool_calls : List PoolCall

-- The constructors, for a client of its own or of a pool.
abbrev pub new_client : (pooled : Bool) → Client
new_client pooled = record {
  pooled = pooled;
  connected = false;
  netloc = record { host = []; port = 0; ssl_ctx = none; proxy = none; ssl_check_cert = true };
  request = none;
  response = none;
  has_context = false;
  last_activity_time = 0;
  in_redirect = false;
  redirect_canceled = false;
  form_field = none;
  weak = false;
  events = [];
  pool_calls = [];
}
