-- ===== src/World/Redirect.antt =====
-- What a redirect of a pool's client at work leads to (`analyze_request` of Client.cc).
use uni_event_http.Base.{
  ℕ, ◌+◌, ◌≡◌, refl, Bool, true, false, not, ◌&&◌, Option, none, some, [], ◌∷◌, ◌==◌, ltb, u16, sym,
  subst, ap, ◌∙◌, arith, if◌then◌else◌, if_elim,
}
use uni_event_http.Error.{operation_canceled}
use uni_event_http.Pool.State.{NetLoc}
use uni_event_http.Client.State.{
  Scheme, no_scheme, https, socks5, other_scheme, Uri, Request, Response, RedirectContext, PoolCall,
  put_back, pool_request, resets, Client, netloc, netloc_of, check_uri, cleanup_after_redirect,
}
use uni_event_http.Client.State
use uni_event_http.Client.Request.{emit, putback}
use uni_event_http.Client.Redirect.{
  Reaction, goes_on, cancels, throws, adjust_method, resolve, redirected, context_of, same_peer,
  scheme_or, follow, follow_uri, react, redirect_to, redirect,
}
use uni_event_http.World.Plain.{
  IsPlain, has_scheme, is_named, netloc_direct, location_at_direct, location, location_at, Serves,
  Rests, StartableIf, putback-After,
}
use uni_event_http.World.Outcome.{
  Holds, Outcome, stays, moves, Serves-Holds, changed-Holds, changed-After, changed-Outcome,
  cancel-Outcome, again-Serves, same_peer-located,
}

-- The handlers of `redirect_event` leave a plain request plain, with the same check of certificates.
abbrev pub KeepsPlain : Reaction → Request → Type 0
KeepsPlain (goes_on r') r = IsPlain r → IsPlain r' × (r'.ssl_check_cert ≡ r.ssl_check_cert)
KeepsPlain _ r = Unit {0}

module _ (default_port : Scheme → ℕ) (on_redirect : RedirectContext → Request → Reaction) where
  abbrev IsBetween : NetLoc → Client → Type 0
  IsBetween n d = (d.request ≡ none) × (d.netloc ≡ n) × (d.pooled ≡ true) × (d.pool_calls ≡ [])

  follow-Outcome :
      (now : ℕ) (n : NetLoc) (o : Option Request) (res : Response) (u : Uri) (r q : Request)
      (c : Client)
      → r.uri ≡ some u
      → IsPlain r
      → IsPlain q
      → location default_port q ≡ n
      → r.ssl_check_cert ≡ q.ssl_check_cert
      → Holds n c
      → StartableIf default_port n o
      → Outcome default_port n o (follow default_port on_redirect now o res u r c)
  unfolding follow cleanup_after_redirect
  follow-Outcome now n o res u r q c e p p' l k s t =
      if_elim (Outcome default_port n o)
        (c.pooled && not (same_peer (netloc default_port u r) c.netloc)) _ _
        (λ _. moves r' plain refl (
          changed-After default_port n _ _ o (putback default_port o idle) _ refl refl refl
            (λ e. ap (λ ks. pool_request r' ∷ ks) e)
            (putback-After default_port n [] o idle idle-Rests t)))
        (λ h. stays (
          again-Serves default_port n r' between (between_lem res.keep_alive).0
            (between_lem res.keep_alive).2 (between_lem res.keep_alive).3
            (record {
              plain = plain;
              located = subst (λ z. location_at default_port z r' ≡ n) (sym e) (same_place h);
              inactive = refl;
            })))
    where
      r' : Request
      r' = cleanup_after_redirect r

      plain : IsPlain r'
      plain = record {
        hosted = p.hosted;
        schemed = p.schemed;
        no_context = p.no_context;
        no_proxy = p.no_proxy;
        certified = p.certified;
      }

      between_of : Bool → Client
      between_of b =
          let c1 = record c { request = none; response = none } in
          if b then c1 else emit resets (record c1 { connected = false })

      between_lem : (b : Bool) → IsBetween n (between_of b)
      between_lem true = (refl, s.at, s.pooled, s.called)
      between_lem false = (refl, s.at, s.pooled, s.called)

      between : Client
      between = between_of res.keep_alive

      idle : Client
      idle = record between { last_activity_time = now }

      idle-Rests : Rests default_port n [] idle
      idle-Rests = record {
        no_request = (between_lem res.keep_alive).0;
        at = (between_lem res.keep_alive).1;
        pooled = (between_lem res.keep_alive).2;
        called = (between_lem res.keep_alive).3;
      }

      same_place :
          (c.pooled && not (same_peer (netloc default_port u r) c.netloc)) ≡ false
          → netloc default_port u r' ≡ n
      same_place h =
          netloc_direct default_port u r' r p.no_proxy p.no_proxy refl refl
          ∙ same_peer-located default_port n u r q p p' l k (ground (arith, h, s.pooled, s.at))

redirected-IsPlain :
    (prev location : Uri) (r : Request)
    → r.uri ≡ some prev
    → IsPlain r
    → IsPlain (redirected prev location r)
unfolding redirected resolve check_uri
redirected-IsPlain prev location r e p = record {
  hosted = ground (arith, prev_hosted);
  schemed =
      subst (λ t. is_named t ≡ true) (sym resolved) (named location.scheme prev.scheme prev_named);
  no_context = refl;
  no_proxy = p.no_proxy;
  certified = p.certified;
}
  where
    prev_hosted : check_uri (some prev) ≡ none
    prev_hosted = subst (λ o. check_uri o ≡ none) e p.hosted

    prev_named : is_named prev.scheme ≡ true
    prev_named = subst (λ o. has_scheme o ≡ true) e p.schemed

    resolved : (resolve prev location).scheme ≡ scheme_or location.scheme prev.scheme
    resolved = ground arith

    named : (s t : Scheme) → is_named t ≡ true → is_named (scheme_or s t) ≡ true
    named no_scheme t h = h
    named State.http t h = refl
    named https t h = refl
    named socks5 t h = refl
    named (other_scheme k) t h = refl

adjust_method-IsPlain : (code : ℕ) (r : Request) → IsPlain r → IsPlain (adjust_method code r)
unfolding adjust_method
adjust_method-IsPlain code r p =
    if_elim IsPlain (code == 303) _ _
      (λ _. record {
        hosted = p.hosted;
        schemed = p.schemed;
        no_context = p.no_context;
        no_proxy = p.no_proxy;
        certified = p.certified;
      })
      (λ _. p)

adjust_method-uri : (code : ℕ) (r : Request) → (adjust_method code r).uri ≡ r.uri
unfolding adjust_method
adjust_method-uri code r = ground arith

adjust_method-check :
    (code : ℕ) (r : Request) → (adjust_method code r).ssl_check_cert ≡ r.ssl_check_cert
unfolding adjust_method
adjust_method-check code r = ground arith

module _ (default_port : Scheme → ℕ) (on_redirect : RedirectContext → Request → Reaction)
    (keeps : (ctx : RedirectContext) (r : Request) → KeepsPlain (on_redirect ctx r) r) where
  react-Outcome :
      (now : ℕ) (n : NetLoc) (o : Option Request) (res : Response) (a : Reaction) (r q : Request)
      (c : Client)
      → KeepsPlain a r
      → IsPlain r
      → IsPlain q
      → location default_port q ≡ n
      → r.ssl_check_cert ≡ q.ssl_check_cert
      → Holds n c
      → StartableIf default_port n o
      → Outcome default_port n o (react default_port on_redirect now o res a c)
  unfolding check_uri
  react-Outcome now n o res (cancels err) r q c k p p' l z s t =
      changed-Outcome default_port n o _ _ refl refl refl refl (
        cancel-Outcome default_port now n o err (record c { in_redirect = true })
          (changed-Holds n c _ s.request s.has_request refl refl refl s) t)
  react-Outcome now n o res throws r q c k p p' l z s t =
      cancel-Outcome default_port now n o operation_canceled _
        (changed-Holds n c _ s.request s.has_request refl refl refl s) t
  react-Outcome now n o res (goes_on g) r q c k p p' l z s t = by_uri g.uri refl (k p)
    where
      g' : Request
      g' = adjust_method res.code g

      by_uri :
          (v : Option Uri)
          → g.uri ≡ v
          → IsPlain g × (g.ssl_check_cert ≡ r.ssl_check_cert)
          → Outcome default_port n o (
              follow_uri default_port on_redirect now o res v g'
                (record c { request = some g'; in_redirect = false }))
      by_uri none e h = absurd (ground (arith, h.0.hosted, e))
      by_uri (some u) e h =
          follow-Outcome default_port on_redirect now n o res u g' q
            (record c { request = some g'; in_redirect = false }) (adjust_method-uri res.code g ∙ e)
            (adjust_method-IsPlain res.code g h.0) p' l (adjust_method-check res.code g ∙ h.1 ∙ z)
            (changed-Holds n c _ g' refl refl refl refl s) t

  redirect_to-Outcome :
      (now : ℕ) (n : NetLoc) (o : Option Request) (res : Response) (prev location' : Option Uri)
      (r : Request) (c : Client)
      → r.uri ≡ prev
      → IsPlain r
      → location default_port r ≡ n
      → Serves default_port n [] c
      → StartableIf default_port n o
      → Outcome default_port n o (redirect_to default_port on_redirect now o res prev location' r c)
  redirect_to-Outcome now n o res prev none r c e p l s t =
      cancel-Outcome default_port now n o _ _
        (changed-Holds n c _ r refl refl refl refl (Serves-Holds default_port n c s)) t
  redirect_to-Outcome now n o res none (some v) r c e p l s t = stays s
  redirect_to-Outcome now n o res (some prev) (some v) r c e p l s t =
      let r' = redirected prev v r in
      react-Outcome now n o res _ r' r _ (keeps (context_of prev r) r')
        (redirected-IsPlain prev v r e p) p l (unfold redirected in refl)
        (changed-Holds n c _ r' refl refl refl refl (Serves-Holds default_port n c s)) t

  pub redirect-Outcome :
      (now : ℕ) (n : NetLoc) (o : Option Request) (res : Response) (r : Request) (c : Client)
      → IsPlain r
      → location default_port r ≡ n
      → Serves default_port n [] c
      → StartableIf default_port n o
      → Outcome default_port n o (redirect default_port on_redirect now o res r c)
  unfolding redirect
  redirect-Outcome now n o res r c p l s t =
      let holds = Serves-Holds default_port n c s in
      let r' = record r { redirection_counter = u16 (r.redirection_counter + 1) } in
      let p' : IsPlain r' = record {
        hosted = p.hosted;
        schemed = p.schemed;
        no_context = p.no_context;
        no_proxy = p.no_proxy;
        certified = p.certified;
      } in
      if_elim (Outcome default_port n o) (r.redirection_limit == 0) _ _
        (λ _. cancel-Outcome default_port now n o _ c holds t)
        (λ _.
          if_elim (Outcome default_port n o)
            (ltb r.redirection_limit (u16 (r.redirection_counter + 1))) _ _
            (λ _.
              cancel-Outcome default_port now n o _ _
                (changed-Holds n c _ r' refl refl refl refl holds) t)
            (λ _.
              redirect_to-Outcome now n o res r.uri res.location r' c refl p'
                (location_at_direct default_port r.uri r' r p.no_proxy p.no_proxy refl refl ∙ l) s
                t))
