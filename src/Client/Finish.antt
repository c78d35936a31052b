-- ===== src/Client/Finish.antt =====
-- How a request on a client begins and ends.
use uni_event_http.Base.{
  ℕ, ◌≡◌, refl, true, false, Option, none, some, List, ◌∷◌, sym, subst, arith, if◌then◌else◌,
  is_some, is_empty, if_elim, ◌∙◌, inl, inr, ◌⊎◌,
}
use uni_event_http.Error.{ErrorCode, HttpError, bad_proxy, no_verify_paths, no_host}
use uni_event_http.Pool.Location.{netloc_eq→≡}
use uni_event_http.Client.State.{
  Scheme, Uri, Proxy, Request, Response, Event, partial_event, response_event, Client, netloc,
  netloc_of, netloc_with, check_uri, cleanup_after_redirect,
}
use uni_event_http.Client.Request.{
  request, request_to, request_checked, needs_connection, context_fails, set_up, with_scheme,
  proxy_refused, reconnect, prepare, send, finish_and_notify, final_error, finish_with,
  finish_request, cancel,
}

-- The request object as its callbacks see it at the end.
abbrev over : Request → Request
over r = record r {
  active = false;
  transfer_completed = false;
  redirection_counter = 0;
  timer_active = false;
}

-- The last two calls of the user's callbacks, which end the request `r`.
unfoldable pub Notified : Request → Option Response → Option ErrorCode → Client → Type 0
Notified r res err c =
    (before : List Event) × (c.events
      ≡ response_event (over r) res err ∷ partial_event (over r) res err ∷ before)

module _ (default_port : Scheme → ℕ) where
  finish_request-final_error :
      (now : ℕ) (queued : Option Request) (err : Option ErrorCode) (r : Request) (c : Client)
      → c.request ≡ some r
      → Notified r c.response (final_error err r) (finish_request default_port now queued err c)
  unfolding finish_request finish_with finish_and_notify Notified cleanup_after_redirect
  finish_request-final_error now queued err r c e = rw e (_, refl)

  -- Cancelling the request of a client ends it: the user is notified of it last of all, with the error.
  pub cancel-Notified :
      (now : ℕ) (queued : Option Request) (err : ErrorCode) (r : Request) (c : Client)
      → c.request ≡ some r
      → Notified r c.response (some err) (cancel default_port now queued err c)
  unfolding cancel final_error
  cancel-Notified now queued err r c e =
      if_elim (Notified r c.response (some err)) (is_some c.request) _ _
        (λ _. finish_request-final_error now queued (some err) r (canceled c) e)
        (λ n. absurd (ground (arith, n, e)))
    where
      canceled : Client → Client
      canceled d = record d {
        has_context = false;
        redirect_canceled = if d.in_redirect then true else d.redirect_canceled;
      }

  -- The request object once the client has claimed it.
  abbrev pub claimed : Uri → Request → Request
  claimed u r = record r { active = true; uri = some (with_scheme u) }

  -- What a failed call of `request` may leave behind.
  abbrev Harmless : Request → Client → HttpError → Client × Option HttpError × Request → Type 0
  Harmless r c e t =
      t.1 ≡ some e
      → ((t.0 ≡ c) × (t.2 ≡ r))
        ⊎ (((e ≡ bad_proxy) ⊎ (e ≡ no_verify_paths))
            × (t.2.active ≡ true)
            × (t.0.connected ≡ false)
            × (t.0.request ≡ c.request))

  request_to-Harmless :
      (u : Uri) (r : Request) (c : Client) (e : HttpError)
      → Harmless r c e (request_to default_port u r c)
  unfolding set_up
  request_to-Harmless u r c e =
      if_elim (Harmless r c e)
        (needs_connection (netloc default_port (with_scheme u) (claimed u r)) (claimed u r) c) _ _
        (λ _.
          if_elim (Harmless r c e) (context_fails (with_scheme u) (claimed u r)) _ _
            (λ _ h. inr (inr (ground (arith, h)), refl, refl, refl))
            (λ _.
              if_elim (Harmless r c e) (proxy_refused r.proxy) _ _
                (λ _ h. inr (inl (ground (arith, h)), refl, refl, refl)) (λ _ h. cc)))
        (λ _ h. cc)

  request_checked-Harmless :
      (u : Option Uri) (f : Option HttpError) (r : Request) (c : Client) (e : HttpError)
      → Harmless r c e (request_checked default_port u f r c)
  request_checked-Harmless u (some f) r c e = λ _. inl (refl, refl)
  request_checked-Harmless none none r c e = λ _. inl (refl, refl)
  request_checked-Harmless (some u) none r c e = request_to-Harmless u r c e

  -- A call of `request` that fails leaves the client and the request as they were, but for a proxy of
  -- a scheme that is not supported and for a default SSL context that cannot be made: then the request
  -- object stays marked as in progress, though the client did not take it, and the client's connection
  -- is gone.
  pub request_errors :
      (r : Request) (c : Client) (e : HttpError)
      → (request default_port r c).1 ≡ some e
      → (((request default_port r c).0 ≡ c) × ((request default_port r c).2 ≡ r))
        ⊎ (((e ≡ bad_proxy) ⊎ (e ≡ no_verify_paths))
            × ((request default_port r c).2.active ≡ true)
            × ((request default_port r c).0.connected ≡ false)
            × ((request default_port r c).0.request ≡ c.request))
  unfolding request
  request_errors r c e =
      if_elim (Harmless r c e) (is_some c.request) _ _ (λ _ _. inl (refl, refl))
        (λ _.
          if_elim (Harmless r c e) r.active _ _ (λ _ _. inl (refl, refl))
            (λ _. request_checked-Harmless r.uri (check_uri r.uri) r c e))

  -- What an accepted call of `request` leaves: the client has the request `r`, with its URI, whose scheme
  -- is by then named, and its headers, and a connection to its location.
  abbrev pub Accepted : Uri → Request → Client × Option HttpError × Request → Type 0
  Accepted u r t =
      (t.1 ≡ none)
      × (t.0.request ≡ some t.2)
      × (t.2.active ≡ true)
      × (t.2.uri ≡ some (with_scheme u))
      × (t.2.headers ≡ r.headers)
      × (t.0.weak ≡ false)
      × (t.0.connected ≡ true)
      × (t.0.netloc ≡ netloc default_port (with_scheme u) r)

  netloc-claimed :
      (u : Uri) (r : Request)
      → netloc default_port (with_scheme u) (claimed u r) ≡ netloc default_port (with_scheme u) r
  unfolding netloc netloc_of
  netloc-claimed u r = by_proxy r.proxy
    where
      by_proxy :
          (o : Option Proxy)
          → netloc_with default_port (with_scheme u) (claimed u r) o
            ≡ netloc_with default_port (with_scheme u) r o
      by_proxy none = refl
      by_proxy (some p) = refl

  sent-Accepted :
      (u : Uri) (r : Request) (c : Client)
      → c.connected ≡ true
      → c.netloc ≡ netloc default_port (with_scheme u) r
      → Accepted u r (send (claimed u r) c, none, prepare (claimed u r))
  unfolding send prepare
  sent-Accepted u r c a n = (refl, refl, refl, refl, refl, refl, a, n)

  -- The call of `request` on a client that needs a connection.
  abbrev connecting : Uri → Request → Client → Client × Option HttpError × Request
  connecting u r c =
      let v = with_scheme u in
      let r' = claimed u r in
      if context_fails v r'
      then (set_up v r' c, some no_verify_paths, r')
      else if proxy_refused r'.proxy
      then (set_up v r' c, some bad_proxy, r')
      else (send r' (reconnect (netloc default_port v r') v r' c), none, prepare r')

  connecting-Accepted :
      (u : Uri) (r : Request) (c : Client)
      → proxy_refused r.proxy ≡ false
      → r.verify_paths_fail ≡ false
      → Accepted u r (connecting u r c)
  connecting-Accepted u r c p v =
      if_elim (Accepted u r) (context_fails (with_scheme u) (claimed u r)) _ _
        (λ n. absurd (ground (arith, n, v)))
        (λ _.
          if_elim (Accepted u r) (proxy_refused r.proxy) _ _ (λ n. absurd (ground (arith, n, p)))
            (λ _.
              sent-Accepted u r
                (reconnect (netloc default_port (with_scheme u) (claimed u r)) (with_scheme u)
                  (claimed u r) c)
                (unfold reconnect in refl) (unfold reconnect in netloc-claimed u r)))

  request_to-Accepted :
      (u : Uri) (r : Request) (c : Client)
      → proxy_refused r.proxy ≡ false
      → r.verify_paths_fail ≡ false
      → Accepted u r (request_to default_port u r c)
  request_to-Accepted u r c p v =
      if_elim (Accepted u r)
        (needs_connection (netloc default_port (with_scheme u) (claimed u r)) (claimed u r) c)
        (connecting u r c) (send (claimed u r) c, none, prepare (claimed u r))
        (λ _. connecting-Accepted u r c p v)
        (λ n. sent-Accepted u r c (ground (arith, n)) (
          netloc_eq→≡ c.netloc (netloc default_port (with_scheme u) (claimed u r))
            (ground (arith, n))
          ∙ netloc-claimed u r))

  request-claims :
      (r : Request) (u : Uri) (c : Client)
      → c.request ≡ none
      → r.active ≡ false
      → r.uri ≡ some u
      → is_empty u.host ≡ false
      → request default_port r c ≡ request_to default_port u r c
  unfolding request check_uri
  request-claims r u c n a e h =
      if_elim Claims (is_some c.request) _ _ (λ m. absurd (ground (arith, m, n)))
        (λ _.
          if_elim Claims r.active _ _ (λ m. absurd (ground (arith, m, a)))
            (λ _.
              subst (λ o. Claims (request_checked default_port o (check_uri o) r c)) (sym e)
                (subst
                  (λ b.
                    Claims (
                      request_checked default_port (some u) (if b then some no_host else none) r c))
                  (sym h) refl)))
    where
      Claims : Client × Option HttpError × Request → Type 0
      Claims t = t ≡ request_to default_port u r c

  -- An idle client that accepts a request sends it.
  pub request-sends :
      (r : Request) (u : Uri) (c : Client)
      → c.request ≡ none
      → r.active ≡ false
      → r.uri ≡ some u
      → is_empty u.host ≡ false
      → proxy_refused r.proxy ≡ false
      → r.verify_paths_fail ≡ false
      → (d : Client) × ((request default_port r c).0 ≡ send (claimed u r) d)
  request-sends r u c n a e h p v = subst Sends (sym (request-claims r u c n a e h)) (
      if_elim Sends
        (needs_connection (netloc default_port (with_scheme u) (claimed u r)) (claimed u r) c)
        (connecting u r c) (send (claimed u r) c, none, prepare (claimed u r))
        (λ _.
          if_elim Sends (context_fails (with_scheme u) (claimed u r)) _ _
            (λ m. absurd (ground (arith, m, v)))
            (λ _.
              if_elim Sends (proxy_refused r.proxy) _ _ (λ m. absurd (ground (arith, m, p)))
                (λ _. (_, refl))))
        (λ _. (c, refl)))
    where
      Sends : Client × Option HttpError × Request → Type 0
      Sends t = (d : Client) × (t.0 ≡ send (claimed u r) d)

  -- On an idle client, a request that is not in progress, has a URI with a host, no proxy of an
  -- unsupported scheme, and needs no default SSL context that cannot be made is accepted: the client has
  -- that request, by its URI and its headers, is connected to its location, and keeps the event loop
  -- running.
  pub request-accepts :
      (r : Request) (u : Uri) (c : Client)
      → c.request ≡ none
      → r.active ≡ false
      → r.uri ≡ some u
      → is_empty u.host ≡ false
      → proxy_refused r.proxy ≡ false
      → r.verify_paths_fail ≡ false
      → Accepted u r (request default_port r c)
  request-accepts r u c n a e h p v =
      subst (Accepted u r) (sym (request-claims r u c n a e h)) (request_to-Accepted u r c p v)
