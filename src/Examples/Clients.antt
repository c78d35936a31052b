-- ===== src/Examples/Clients.antt =====
-- A client and the user agent at work: requests, redirects, settings.
use mathlib.Core.List.{Perm}
use uni_event_http.Base.{ℕ, ◌≡◌, refl, true, false, Option, none, some, List, [], ◌∷◌, ◌++◌, ◌⊎◌}
use uni_event_http.Error.{bad_proxy, no_verify_paths, http as http_error, redirection_limit}
use uni_event_http.Server.Config.{eq_bytes}
use uni_event_http.Pool.State.{NetLocList, find}
use uni_event_http.Client.State.{
  Scheme, no_scheme, https, socks5, other_scheme, Uri, Header, cookie, accept_encoding, Request,
  Response, RedirectContext, Client, new_client, netloc, check_uri, netloc_of,
}
use uni_event_http.Client.Request.{request}
use uni_event_http.Client.Redirect.{Reaction, goes_on, resolve, redirected, context_of, follow}
use uni_event_http.Client.Finish.{Accepted, request_errors, request-accepts}
use uni_event_http.Client.Follow.{
  NonePrivate, AllPrivate, WorksWeakly, redirected_carries, follow_weak, redirect_loses_entry,
}
use uni_event_http.Client.Read.{Parsed, done, Delivery, asked, data_read, connect_done}

abbrev pub default_port : Scheme → ℕ
default_port https = 443
default_port socks5 = 1080
default_port _ = 80

abbrev pub start_page : Uri
start_page = record { scheme = https; host = b'h' ∷ []; explicit_port = 8443; rest = b'/' ∷ [] }

abbrev pub next_page : Uri
next_page = record { scheme = no_scheme; host = []; explicit_port = 0; rest = b'n' ∷ [] }

abbrev two_headers : List Header
two_headers =
    record { name = cookie; exact_case = true; value = b'c' ∷ [] }
    ∷ record { name = accept_encoding; exact_case = false; value = b'a' ∷ [] }
    ∷ []

abbrev pub page_request : Request
page_request = record {
  uri = some start_page;
  headers = two_headers;
  cookies = b'c' ∷ [];
  has_body = false;
  chunked = false;
  is_get = true;
  keep_alive = true;
  identity_only = true;
  timeout = 20000;
  follow_redirect = true;
  redirection_limit = 2;
  redirection_counter = 0;
  ssl_ctx = some 5;
  ssl_check_cert = true;
  proxy = none;
  form_streaming = false;
  form = [];
  connect_timeout = 0;
  tcp_nodelay = false;
  tcp_hints = 0;
  proxy_resolve = true;
  transfer_completed = false;
  active = false;
  timer_active = false;
  verify_paths_fail = false;
}

-- The request as it was sent, and the client that sent it.
abbrev sent_request : Request
sent_request = record page_request { active = true; transfer_completed = true; timer_active = true }

abbrev working_client : Client
working_client = record (new_client true) {
  connected = true;
  netloc = record {
    host = b'h' ∷ [];
    port = 8443;
    ssl_ctx = some 5;
    proxy = none;
    ssl_check_cert = true;
  };
  request = some sent_request;
  has_context = true;
  weak = false;
}

abbrev pub moved : Response
moved = record { code = 302; keep_alive = true; location = some next_page; is_done = true }

abbrev pub follows : RedirectContext → Request → Reaction
follows ctx r = goes_on r

abbrev proxied_request : Request
proxied_request = record page_request {
  proxy = some (record { id = 1; uri = record start_page { scheme = other_scheme 4 } });
}

request_errors_example :
    (((request default_port proxied_request (new_client true)).0 ≡ new_client true)
      × ((request default_port proxied_request (new_client true)).2 ≡ proxied_request))
    ⊎ (((bad_proxy ≡ bad_proxy) ⊎ (bad_proxy ≡ no_verify_paths))
        × ((request default_port proxied_request (new_client true)).2.active ≡ true)
        × ((request default_port proxied_request (new_client true)).0.connected ≡ false)
        × ((request default_port proxied_request (new_client true)).0.request ≡ none))
unfolding request check_uri netloc
request_errors_example =
    request_errors default_port proxied_request (new_client true) bad_proxy refl

request-accepts_example :
    Accepted default_port start_page page_request
      (request default_port page_request (new_client true))
request-accepts_example =
    request-accepts default_port page_request start_page (new_client true) refl refl refl refl refl
      refl

redirected_carries_example :
    let r' = redirected start_page next_page page_request in
    let ctx = context_of start_page page_request in
    NonePrivate r'.headers
    × AllPrivate ctx.removed_headers
    × Perm two_headers (ctx.removed_headers ++ r'.headers)
    × (r'.cookies ≡ [])
    × (r'.ssl_ctx ≡ none)
    × (ctx.cookies ≡ b'c' ∷ [])
    × (ctx.ssl_ctx ≡ some 5)
redirected_carries_example = redirected_carries start_page next_page page_request

-- A request that was redirected twice.
abbrev twice_redirected : Request
twice_redirected = record sent_request { redirection_counter = 2 }

-- A request that is redirected and answered.
abbrev answer : Response → Parsed
answer res = record { state = done; error = none; response = res; context_left = false }

abbrev whole_life : List (ℕ × Option Request × Delivery)
whole_life =
    (1000, none, asked page_request)
    ∷ (1001, none, connect_done none)
    ∷ (1002, none, data_read (answer moved ∷ []))
    ∷ (1003, none, data_read (answer (record moved { code = 200; location = none }) ∷ []))
    ∷ []

-- Another host, and a request that waits in the pool.
abbrev elsewhere : Uri
elsewhere = record start_page { host = b'e' ∷ [] }

follow_weak_example : WorksWeakly default_port follows start_page page_request (
    follow default_port follows 1000
      (some page_request)
      moved
      elsewhere
      sent_request
      working_client)
unfolding netloc netloc_of eq_bytes
follow_weak_example =
    follow_weak default_port follows 1000 page_request start_page moved elsewhere sent_request
      working_client refl refl refl refl refl refl refl

abbrev one_busy : NetLocList
one_busy = record { free = []; busy = 0 ∷ []; queue = [] }

redirect_loses_entry_example :
    find
      (netloc default_port
        (resolve start_page next_page)
        (redirected start_page next_page page_request))
      ((netloc default_port start_page page_request, one_busy) ∷ [])
    ≡ none
redirect_loses_entry_example =
    redirect_loses_entry default_port start_page next_page page_request 5 one_busy refl refl
