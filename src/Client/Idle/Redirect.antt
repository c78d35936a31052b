-- ===== src/Client/Idle/Redirect.antt =====
-- Redirects leave no idle client with a connection at work.
use uni_event_http.Base.{
  ℕ, ◌≡◌, refl, Bool, true, false, not, ◌&&◌, Option, none, some, arith, sym, subst, ◌+◌, ◌==◌, ltb,
  u16, if◌then◌else◌, is_some, if_elim,
}
use uni_event_http.Error.{operation_canceled}
use uni_event_http.Client.State.{
  Scheme, Uri, Request, Response, RedirectContext, resets, Client, netloc, check_uri,
  cleanup_after_redirect,
}
use uni_event_http.Client.Request.{emit, request}
use uni_event_http.Client.Redirect.{
  Reaction, goes_on, cancels, throws, adjust_method, resolve, redirected, context_of, same_peer,
  follow, follow_uri, react, redirect_to, redirect, analyze, is_redirect,
}
use uni_event_http.Client.Idle.{
  Hosted, IsSound, SoundAfter, finish_request-IsSound, cancel-IsSound, request_valid-IsSound,
  putback-Hosted,
}

-- The handler of `redirect_event` leaves a request with a host, if it is given one.
abbrev pub KeepsHost : Reaction → Request → Type 0
KeepsHost (goes_on r') r = check_uri r.uri ≡ none → check_uri r'.uri ≡ none
KeepsHost _ r = Unit {0}

resolve-hosted :
    (prev u : Uri) → check_uri (some prev) ≡ none → check_uri (some (resolve prev u)) ≡ none
unfolding check_uri resolve
resolve-hosted prev u h = ground arith

adjust_method-hosted :
    (code : ℕ) (r : Request) → check_uri r.uri ≡ none → check_uri (adjust_method code r).uri ≡ none
unfolding adjust_method
adjust_method-hosted code r h =
    if_elim {A = Request} (λ q. check_uri q.uri ≡ none) (code == 303) _ _ (λ _. h) (λ _. h)

module _ (default_port : Scheme → ℕ) (on_redirect : RedirectContext → Request → Reaction)
    (keeps : (ctx : RedirectContext) (r : Request) → KeepsHost (on_redirect ctx r) r) where
  -- On the way from a request to the next one of the redirect, the client has none.
  follow-IsSound :
      (now : ℕ) (queued : Option Request) (res : Response) (u : Uri) (r : Request) (c : Client)
      → check_uri r.uri ≡ none
      → IsSound (follow default_port on_redirect now queued res u r c)
  unfolding follow request cleanup_after_redirect
  follow-IsSound now queued res u r c h =
      if_elim IsSound (c.pooled && not (same_peer (netloc default_port u r) c.netloc)) _ _
        (λ _. record {
          quiet = λ _. ground arith;
          hosted = putback-Hosted default_port queued _ (hosted res.keep_alive);
        })
        (λ _. again (between res.keep_alive) (request_none res.keep_alive))
    where
      between : Bool → Client
      between b =
          let c1 = record c { request = none; response = none } in
          if b then c1 else emit resets (record c1 { connected = false })

      request_none : (b : Bool) → (between b).request ≡ none
      request_none true = refl
      request_none false = refl

      hosted : (b : Bool) → Hosted (between b).request
      hosted true = tt
      hosted false = tt

      r' : Request
      r' = cleanup_after_redirect r

      again : (d : Client) → d.request ≡ none → IsSound (request default_port r' d).0
      again d n =
          if_elim SoundAfter (is_some d.request) _ _ (λ m. absurd (ground (arith, m, n)))
            (λ _.
              request_valid-IsSound default_port r.uri (check_uri r.uri) r' d refl h
                (subst Hosted (sym n) tt))

  react-IsSound :
      (now : ℕ) (queued : Option Request) (res : Response) (a : Reaction) (r : Request) (c : Client)
      → KeepsHost a r
      → check_uri r.uri ≡ none
      → IsSound c
      → IsSound (react default_port on_redirect now queued res a c)
  react-IsSound now queued res (goes_on r') r c k h s =
      by_uri r'.uri (adjust_method-hosted res.code r' (k h))
    where
      q : Request
      q = adjust_method res.code r'

      by_uri :
          (o : Option Uri)
          → check_uri q.uri ≡ none
          → IsSound (
              follow_uri default_port on_redirect now queued res o q
                (record c { request = some q; in_redirect = false }))
      by_uri none t = record { quiet = λ e. cc; hosted = t }
      by_uri (some u) t = follow-IsSound now queued res u q _ t
  react-IsSound now queued res (cancels err) r c k h s =
      let t =
        cancel-IsSound default_port now queued err (record c { in_redirect = true })
          (record { quiet = s.quiet; hosted = s.hosted }) in
      record { quiet = t.quiet; hosted = t.hosted }
  react-IsSound now queued res throws r c k h s =
      cancel-IsSound default_port now queued operation_canceled _
        (record { quiet = s.quiet; hosted = s.hosted })

  redirect_to-IsSound :
      (now : ℕ) (queued : Option Request) (res : Response) (prev location : Option Uri)
      (r : Request) (c : Client)
      → check_uri prev ≡ none
      → check_uri r.uri ≡ none
      → IsSound c
      → IsSound (redirect_to default_port on_redirect now queued res prev location r c)
  redirect_to-IsSound now queued res prev none r c p h s =
      cancel-IsSound default_port now queued _ (record c { request = some r })
        (record { quiet = λ e. cc; hosted = h })
  redirect_to-IsSound now queued res none (some location) r c p h s = s
  redirect_to-IsSound now queued res (some prev) (some location) r c p h s =
      let r' = redirected prev location r in
      let hosted : check_uri r'.uri ≡ none = unfold redirected in resolve-hosted prev location p in
      react-IsSound now queued res _ r' _ (keeps (context_of prev r) r') hosted
        (record { quiet = λ e. cc; hosted = hosted })

  redirect-IsSound :
      (now : ℕ) (queued : Option Request) (res : Response) (r : Request) (c : Client)
      → check_uri r.uri ≡ none
      → IsSound c
      → IsSound (redirect default_port on_redirect now queued res r c)
  unfolding redirect
  redirect-IsSound now queued res r c h s =
      if_elim IsSound (r.redirection_limit == 0) _ _
        (λ _. cancel-IsSound default_port now queued _ c s)
        (λ _.
          if_elim IsSound (ltb r.redirection_limit (u16 (r.redirection_counter + 1))) _ _
            (λ _.
              cancel-IsSound default_port now queued _ _ (record { quiet = λ e. cc; hosted = h }))
            (λ _. redirect_to-IsSound now queued res r.uri res.location _ c h h s))

  pub analyze-IsSound :
      (now : ℕ) (queued o : Option Request) (p : Option Response) (c : Client)
      → Hosted o
      → IsSound c
      → IsSound (analyze default_port on_redirect now queued o p c)
  analyze-IsSound now queued (some r) (some res) c h s =
      if_elim IsSound (res.code == 100) _ _ (λ _. record { quiet = s.quiet; hosted = s.hosted })
        (λ _.
          if_elim IsSound (r.follow_redirect && is_redirect res.code) _ _
            (λ _. redirect-IsSound now queued res r c h s)
            (λ _. finish_request-IsSound default_port now queued none c s))
  analyze-IsSound now queued none p c h s = s
  analyze-IsSound now queued (some r) none c h s = s
