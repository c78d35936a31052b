-- ===== src/UserAgent/Redirect.antt =====
-- A redirect that goes through a user agent's handler of `redirect_event`.
use uni_event_http.Base.{
  ℕ, ◌+◌, ◌≡◌, refl, Bool, true, false, not, ◌&&◌, Option, none, some, List, ap, sym, subst, ◌∙◌,
  arith, is_empty, if_elim, if◌then◌else◌, ◌==◌, ltb, u16,
}
use uni_event_http.Client.State.{
  Scheme, Uri, Proxy, Request, Response, Client, netloc, cleanup_after_redirect, resets,
  RedirectContext, redirect_event,
}
use uni_event_http.Client.Request.{
  with_scheme, proxy_refused, prepare, prepare_head, send, request, emit,
}
use uni_event_http.Client.Redirect.{
  resolve, redirected, context_of, adjust_method, same_peer, follow, follow_uri, redirect_to,
  redirect, Reaction,
}
use uni_event_http.Client.Finish.{claimed, request-sends}
use uni_event_http.UserAgent.{inject, or_else}
use uni_event_http.UserAgent.Session.{Turn, handler, after_redirect}

-- A cookie jar changes nothing of a request but its cookies.
abbrev pub OnlyCookies : Request → Request → Type 0
OnlyCookies r q = q ≡ record r { cookies = q.cookies }

-- The request that a client goes on with has the context `ctx`, the proxy, the cookies and the URI.
abbrev pub GoesOnWith : Option ℕ → Option Proxy → List ℕ → Uri → Client → Type 0
GoesOnWith ctx proxy cookies u c =
    (q : Request) × (c.request ≡ some q)
    × (q.ssl_ctx ≡ ctx)
    × (q.proxy ≡ proxy)
    × (q.cookies ≡ cookies)
    × (q.uri ≡ some (with_scheme u))

-- The request's own proxy, or the agent's if it has none.
abbrev pub own_or : (own given : Option Proxy) → Option Proxy
own_or none given = given
own_or (some p) given = some p

or_else-own_or : (own given : Option Proxy) → or_else own given ≡ own_or own given
or_else-own_or none given = refl
or_else-own_or (some p) given = refl

-- `g` may start on an idle client, as a request with the given parts.
record IsHanded (ctx : Option ℕ) (proxy : Option Proxy) (cookies : List ℕ) (u : Uri) (g : Request)
    : Type 0 where
  ssl_ctx : g.ssl_ctx ≡ ctx
  proxied : g.proxy ≡ proxy
  cookied : g.cookies ≡ cookies
  located : g.uri ≡ some u
  certified : g.verify_paths_fail ≡ false

adjust_method-IsHanded :
    (code : ℕ) (ctx : Option ℕ) (proxy : Option Proxy) (cookies : List ℕ) (u : Uri) (g : Request)
    → IsHanded ctx proxy cookies u g
    → IsHanded ctx proxy cookies u (adjust_method code g)
unfolding adjust_method
adjust_method-IsHanded code ctx proxy cookies u g h =
    if_elim (IsHanded ctx proxy cookies u) (code == 303) _ _
      (λ _. record {
        ssl_ctx = h.ssl_ctx;
        proxied = h.proxied;
        cookied = h.cookied;
        located = h.located;
        certified = h.certified;
      })
      (λ _. h)

request-GoesOnWith :
    (default_port : Scheme → ℕ) (ctx : Option ℕ) (proxy : Option Proxy) (cookies : List ℕ) (u : Uri)
    (g : Request) (c : Client)
    → IsHanded ctx proxy cookies u g
    → c.request ≡ none
    → is_empty u.host ≡ false
    → proxy_refused proxy ≡ false
    → GoesOnWith ctx proxy cookies u (request default_port (cleanup_after_redirect g) c).0
unfolding cleanup_after_redirect
request-GoesOnWith default_port ctx proxy cookies u g c h n e p =
    let g' = cleanup_after_redirect g in
    let sent =
      request-sends default_port g' u c n refl h.located e (ap (λ x. proxy_refused x) h.proxied ∙ p)
        h.certified in
    (
      prepare (claimed default_port u g'),
      ap (λ (d : Client). d.request) sent.1 ∙ unfold send in refl,
      unfold prepare in unfold prepare_head in h.ssl_ctx,
      unfold prepare in unfold prepare_head in h.proxied,
      unfold prepare in unfold prepare_head in h.cookied,
      unfold prepare in unfold prepare_head in refl,
    )

module _ {J : Type 0} (new_jar : List ℕ → J) (collect : J → Response → Option Uri → ℕ → J)
    (populate : J → Request → Option Uri → Bool → ℕ → Request) (default_port : Scheme → ℕ)
    (only_cookies : (j : J) (r : Request) (u : Option Uri) (top_level : Bool) (now : ℕ)
      → OnlyCookies r (populate j r u top_level now)) where
  -- The cookies that the jar, once it has those of the redirect's response, gives to the request.
  abbrev pub cookies_at : Turn J → (prev location : Uri) → Request → List ℕ
  cookies_at t prev location r =
      (populate (collect t.agent.jar t.response (some prev) t.now) (redirected prev location r)
        t.context_uri t.top_level t.now).cookies

  handler-IsHanded :
      (t : Turn J) (prev location : Uri) (r : Request)
      → r.verify_paths_fail ≡ false
      → IsHanded t.agent.config.ssl_ctx
          (own_or r.proxy t.agent.config.proxy)
          (cookies_at t prev location r)
          (resolve prev location)
          (inject
            (λ q.
              populate
                (collect t.agent.jar t.response (some prev) t.now)
                q
                t.context_uri
                t.top_level
                t.now)
            t.agent.config
            (redirected prev location r))
  unfolding inject redirected
  handler-IsHanded t prev location r v =
      let k =
        only_cookies (collect t.agent.jar t.response (some prev) t.now) (redirected prev location r)
          t.context_uri t.top_level t.now in
      record {
        ssl_ctx = ap (λ (q : Request). or_else q.ssl_ctx t.agent.config.ssl_ctx) k;
        proxied =
            ap (λ (q : Request). or_else q.proxy t.agent.config.proxy) k
            ∙ or_else-own_or r.proxy t.agent.config.proxy;
        cookied = refl;
        located = ap (λ (q : Request). q.uri) k;
        certified = ap (λ (q : Request). q.verify_paths_fail) k ∙ v;
      }

  -- A request on a client of its own that is redirected under a user agent's handler goes on, at the new
  -- location, with the agent's SSL context, whatever context it had, or none if the agent has none; with
  -- its own proxy, or the agent's if it has none; and with the cookies that the agent's jar gives it after
  -- it took those of the redirect's response. This is so if the request has a URI, the response a
  -- Location, the limit of redirects is not reached, the new URI has a host, the proxy's scheme is
  -- supported, the default SSL context can be made, and the jar changes nothing of a request but its
  -- cookies.
  pub redirect-GoesOnWith :
      (t : Turn J) (queued : Option Request) (prev location : Uri) (r : Request) (c : Client)
      → r.uri ≡ some prev
      → t.response.location ≡ some location
      → (r.redirection_limit == 0) ≡ false
      → ltb r.redirection_limit (u16 (r.redirection_counter + 1)) ≡ false
      → c.pooled ≡ false
      → is_empty (resolve prev location).host ≡ false
      → proxy_refused (own_or r.proxy t.agent.config.proxy) ≡ false
      → r.verify_paths_fail ≡ false
      → GoesOnWith t.agent.config.ssl_ctx
          (own_or r.proxy t.agent.config.proxy)
          (cookies_at t prev location
            (record r { redirection_counter = u16 (r.redirection_counter + 1) }))
          (resolve prev location)
          (redirect default_port (handler new_jar collect populate t) t.now queued t.response r c)
  unfolding redirect follow after_redirect context_of
  redirect-GoesOnWith t queued prev location r c e f z l w h p v =
      if_elim Goes (r.redirection_limit == 0) _ _ (λ n. absurd (ground (arith, n, z)))
        (λ _.
          if_elim Goes (ltb r.redirection_limit (u16 (r.redirection_counter + 1))) _ _
            (λ n. absurd (ground (arith, n, l)))
            (λ _.
              subst
                (λ o. Goes (
                  redirect_to default_port handled t.now queued t.response o t.response.location r'
                    c))
                (sym e)
                (subst
                  (λ o.
                    Goes
                      (redirect_to default_port handled t.now queued t.response (some prev) o r' c))
                  (sym f) by_uri)))
    where
      r' : Request
      r' = record r { redirection_counter = u16 (r.redirection_counter + 1) }

      handled : RedirectContext → Request → Reaction
      handled = handler new_jar collect populate t

      Goes : Client → Type 0
      Goes =
          GoesOnWith t.agent.config.ssl_ctx (own_or r.proxy t.agent.config.proxy)
            (cookies_at t prev location r') (resolve prev location)

      given : Request
      given =
          inject
            (λ q.
              populate (collect t.agent.jar t.response (some prev) t.now) q t.context_uri
                t.top_level t.now)
            t.agent.config (redirected prev location r')

      given-IsHanded :
          IsHanded t.agent.config.ssl_ctx
            (own_or r.proxy t.agent.config.proxy)
            (cookies_at t prev location r')
            (resolve prev location)
            given
      given-IsHanded = handler-IsHanded t prev location r' v

      -- The client while the request is out of it.
      out : Client
      out =
          record (emit (redirect_event (context_of prev r'))
            (record c { request = some (redirected prev location r') })) {
              request = some (adjust_method t.response.code given);
              in_redirect = false;
            }

      by_uri : Goes (
          follow_uri default_port handled t.now queued t.response given.uri
            (adjust_method t.response.code given)
            out)
      by_uri =
          subst
            (λ o. Goes (
              follow_uri default_port handled t.now queued t.response o
                (adjust_method t.response.code given) out))
            (sym given-IsHanded.located) followed
        where
          idle :
              (b : Bool)
              → (if b
                  then record out { request = none; response = none }
                  else emit resets
                      (record out { request = none; response = none; connected = false })).request
                ≡ none
          idle true = refl
          idle false = refl

          followed : Goes (
              follow default_port handled t.now queued t.response
                (resolve prev location)
                (adjust_method t.response.code given)
                out)
          followed =
              if_elim Goes
                (out.pooled
                  && not (
                      same_peer
                        (netloc default_port (resolve prev location)
                          (adjust_method t.response.code given))
                        out.netloc))
                _ _ (λ n. absurd (ground (arith, n, w)))
                (λ _.
                  request-GoesOnWith default_port t.agent.config.ssl_ctx
                    (own_or r.proxy t.agent.config.proxy) (cookies_at t prev location r')
                    (resolve prev location) (adjust_method t.response.code given) _
                    (adjust_method-IsHanded t.response.code _ _ _ _ given given-IsHanded)
                    (idle t.response.keep_alive) h p)
