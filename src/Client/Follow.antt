-- ===== src/Client/Follow.antt =====
-- What a redirect keeps, what it takes away, how often it is followed, and where it leads.
use mathlib.Core.List.{Perm, perm_middle}
use mathlib.Core.List.Perm
use uni_event_http.Base.{
  ℕ, ◌+◌, ◌≡◌, refl, Bool, true, false, not, ◌&&◌, Option, none, some, List, [], ◌∷◌, ◌++◌, ◌∙◌,
  arith, if◌then◌else◌, is_empty, if_elim, inl, inr, ◌⊎◌, u16,
}
use uni_event_http.Error.{redirection_limit}
use uni_event_http.Pool.State.{NetLoc, NetLocList, netloc_eq, find}
use uni_event_http.Client.State.{
  Scheme, no_scheme, Uri, HeaderName, authorization, cookie, host_header, referer, accept_encoding,
  user_agent, other_header, Header, Request, Response, RedirectContext, Client, port, netloc,
  netloc_of, put_back, resets,
}
use uni_event_http.Client.Request.{with_scheme, request, emit, call_pool}
use uni_event_http.Client.Redirect.{
  names_removed, is_removed, kept, removed, resolve, context_of, redirected, Reaction, follow,
  redirect, redirect_to, same_peer,
}
use uni_event_http.Client.Finish.{Accepted, request-accepts}

-- The header is written as one of the four words `Authorization`, `Cookie`, `Host` and `Referer`.
abbrev pub IsPrivate : Header → Type 0
IsPrivate h =
    (h.exact_case ≡ true)
    × ((h.name ≡ authorization)
        ⊎ ((h.name ≡ cookie) ⊎ ((h.name ≡ host_header) ⊎ (h.name ≡ referer))))

abbrev pub NonePrivate : List Header → Type 0
NonePrivate [] = Unit {0}
NonePrivate (h ∷ hs) = (¬ IsPrivate h) × NonePrivate hs

abbrev pub AllPrivate : List Header → Type 0
AllPrivate [] = Unit {0}
AllPrivate (h ∷ hs) = IsPrivate h × AllPrivate hs

not_removed : (h : Header) → is_removed h ≡ false → ¬ IsPrivate h
not_removed h n (e, inl a) = absurd (ground (arith, n, e, a))
not_removed h n (e, inr (inl a)) = absurd (ground (arith, n, e, a))
not_removed h n (e, inr (inr (inl a))) = absurd (ground (arith, n, e, a))
not_removed h n (e, inr (inr (inr a))) = absurd (ground (arith, n, e, a))

names_private :
    (n : HeaderName)
    → names_removed n ≡ true
    → (n ≡ authorization) ⊎ ((n ≡ cookie) ⊎ ((n ≡ host_header) ⊎ (n ≡ referer)))
names_private authorization e = inl refl
names_private cookie e = inr (inl refl)
names_private host_header e = inr (inr (inl refl))
names_private referer e = inr (inr (inr refl))
names_private accept_encoding e = cc
names_private user_agent e = cc
names_private (other_header k) e = cc

removed-IsPrivate : (h : Header) → is_removed h ≡ true → IsPrivate h
removed-IsPrivate h e = (ground (arith, e), names_private h.name (ground (arith, e)))

kept-NonePrivate : (hs : List Header) → NonePrivate (kept hs)
unfolding kept
kept-NonePrivate [] = tt
kept-NonePrivate (h ∷ hs) =
    let ih = kept-NonePrivate hs in
    if_elim NonePrivate (is_removed h) _ _ (λ _. ih) (λ n. (not_removed h n, ih))

removed-AllPrivate : (hs : List Header) → AllPrivate (removed hs)
unfolding removed
removed-AllPrivate [] = tt
removed-AllPrivate (h ∷ hs) =
    let ih = removed-AllPrivate hs in
    if_elim AllPrivate (is_removed h) _ _ (λ e. (removed-IsPrivate h e, ih)) (λ _. ih)

removed-kept-perm : (hs : List Header) → Perm hs (removed hs ++ kept hs)
unfolding kept removed
removed-kept-perm [] = Perm.nil
removed-kept-perm (h ∷ hs) = by_name (is_removed h) (Perm.cons h (removed-kept-perm hs))
  where
    by_name :
        (b : Bool)
        → Perm (h ∷ hs) (h ∷ (removed hs ++ kept hs))
        → Perm
            (h ∷ hs)
            ((if b then h ∷ removed hs else removed hs) ++ (if b then kept hs else h ∷ kept hs))
    by_name true p = p
    by_name false p = Perm.trans p (Perm.symm (perm_middle (removed hs) (kept hs)))

-- A redirected request carries none of the headers that are written Authorization, Cookie, Host and
-- Referer, in these letters and this case, no cookies and no SSL context. The context that the user is
-- given has only such headers; they and those that the request carries on are together the headers that
-- it had; and it has the cookies and the SSL context.
pub redirected_carries :
    (prev location : Uri) (r : Request)
    → let r' = redirected prev location r in
      let ctx = context_of prev r in
      NonePrivate r'.headers
      × AllPrivate ctx.removed_headers
      × Perm r.headers (ctx.removed_headers ++ r'.headers)
      × (r'.cookies ≡ [])
      × (r'.ssl_ctx ≡ none)
      × (ctx.cookies ≡ r.cookies)
      × (ctx.ssl_ctx ≡ r.ssl_ctx)
unfolding redirected context_of
redirected_carries prev location r = (
  kept-NonePrivate r.headers,
  removed-AllPrivate r.headers,
  removed-kept-perm r.headers,
  refl,
  refl,
  refl,
  refl,
)

-- A Location with no scheme, no host and no port leads to the scheme, host and port of the request.
resolve-relative :
    (default_port : Scheme → ℕ) (prev u : Uri)
    → u.scheme ≡ no_scheme
    → is_empty u.host ≡ true
    → u.explicit_port ≡ 0
    → let v = resolve prev u in
      (v.scheme ≡ prev.scheme)
      × (v.host ≡ prev.host)
      × (port default_port v ≡ port default_port prev)
      × (v.rest ≡ u.rest)
unfolding resolve
resolve-relative default_port prev u s h p = ground arith

module _ (default_port : Scheme → ℕ) (on_redirect : RedirectContext → Request → Reaction) where
  -- The limit 65535 is none: however often the request was redirected, the counter of 16 bits does not
  -- pass it, and the redirect goes on with the response's Location.
  redirect_without_limit :
      (now : ℕ) (queued : Option Request) (res : Response) (r : Request) (c : Client)
      → r.redirection_limit ≡ 65535
      → redirect default_port on_redirect now queued res r c
        ≡ redirect_to default_port on_redirect now queued res r.uri res.location
            (record r { redirection_counter = u16 (r.redirection_counter + 1) })
            c
  unfolding redirect
  redirect_without_limit now queued res r c e = ground arith

  -- The client has the request `q` of the URI `v`, in progress, with a connection to its location that
  -- does not keep the event loop running.
  abbrev pub WorksWeakly : Uri → Request → Client → Type 0
  WorksWeakly v q d =
      (r : Request) × (d.request ≡ some r)
      × (r.active ≡ true)
      × (r.uri ≡ some (with_scheme v))
      × (r.headers ≡ q.headers)
      × (d.connected ≡ true)
      × (d.netloc ≡ netloc default_port (with_scheme v) q)
      × (d.weak ≡ true)

  -- If a pool's client followed a redirect to another host or port, and the pool gives it a waiting
  -- request, not in progress, with a host and with no proxy, for which the default SSL context can be
  -- made, then the client is at work on that request, by its URI and its headers, and connected to its
  -- location, but the connection no longer keeps the event loop running.
  pub follow_weak :
      (now : ℕ) (q : Request) (v : Uri) (res : Response) (u : Uri) (r : Request) (c : Client)
      → c.pooled ≡ true
      → same_peer (netloc default_port u r) c.netloc ≡ false
      → q.active ≡ false
      → q.uri ≡ some v
      → is_empty v.host ≡ false
      → q.proxy ≡ none
      → q.verify_paths_fail ≡ false
      → WorksWeakly v q (follow default_port on_redirect now (some q) res u r c)
  unfolding follow
  follow_weak now q v res u r c p s a e h x f =
      if_elim (WorksWeakly v q) (c.pooled && not (same_peer (netloc default_port u r) c.netloc)) _ _
        (λ _. (
          (request default_port q idle).2,
          accepted.1,
          accepted.2,
          accepted.3,
          accepted.4,
          accepted.6,
          accepted.7,
          refl,
        ))
        (λ n. absurd (ground (arith, n, p, s)))
    where
      rested : Client
      rested =
          record (if res.keep_alive
            then record c { request = none; response = none }
            else emit resets (record c { request = none; response = none; connected = false })) {
              last_activity_time = now;
            }

      idle : Client
      idle = call_pool (put_back rested.netloc) rested

      idle_request :
          (b : Bool) (d d' : Client)
          → d.request ≡ none
          → d'.request ≡ none
          → (if b then d else d').request ≡ none
      idle_request true d d' n n' = n
      idle_request false d d' n n' = n'

      accepted : Accepted default_port v q (request default_port q idle)
      accepted =
          request-accepts default_port q v idle (idle_request res.keep_alive _ _ refl refl) a e h
            (rw x refl) f

netloc_eq-ssl_ctx :
    (a b : NetLoc) (x : ℕ) → a.ssl_ctx ≡ some x → b.ssl_ctx ≡ none → netloc_eq a b ≡ false
unfolding netloc_eq
netloc_eq-ssl_ctx a b x p q = ground arith

-- The SSL context of a location without an HTTP proxy is that of the request.
netloc-ssl_ctx :
    (default_port : Scheme → ℕ) (u : Uri) (r : Request)
    → r.proxy ≡ none
    → (netloc default_port u r).ssl_ctx ≡ r.ssl_ctx
unfolding netloc netloc_of
netloc-ssl_ctx default_port u r p = rw p refl

-- A redirect of a request with an SSL context and no proxy takes the context from it, and with it
-- changes the request's location, also where the host and the port stay: the pool's entry that was
-- made for the request before the redirect is not found for the request after it.
pub redirect_loses_entry :
    (default_port : Scheme → ℕ) (prev location : Uri) (r : Request) (ctx : ℕ) (l : NetLocList)
    → r.ssl_ctx ≡ some ctx
    → r.proxy ≡ none
    → find
        (netloc default_port (resolve prev location) (redirected prev location r))
        ((netloc default_port prev r, l) ∷ [])
      ≡ none
unfolding find
redirect_loses_entry default_port prev location r ctx l s p = ground (
  arith,
  netloc_eq-ssl_ctx (netloc default_port prev r)
      (netloc default_port (resolve prev location) (redirected prev location r)) ctx
      (netloc-ssl_ctx default_port prev r p ∙ s)
      (netloc-ssl_ctx default_port (resolve prev location) (redirected prev location r)
          (unfold redirected in p)
        ∙ unfold redirected in refl),
)
