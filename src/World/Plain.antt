-- ===== src/World/Plain.antt =====
-- The requests whose location never changes while they are carried out, and how a client starts one.
use uni_event_http.Base.{
  ℕ, ◌≡◌, refl, Bool, true, false, Option, none, some, List, [], ◌∷◌, sym, subst, ap, ◌∙◌, arith,
  if◌then◌else◌, is_some, if_elim,
}
use uni_event_http.Error.{HttpError, bad_proxy, no_verify_paths}
use uni_event_http.Pool.State.{NetLoc}
use uni_event_http.Pool.Location.{netloc_eq→≡}
use uni_event_http.Client.State.{
  Scheme, no_scheme, http, https, socks5, other_scheme, Uri, Request, PoolCall, put_back, Client,
  netloc, netloc_of, check_uri,
}
use uni_event_http.Client.Request.{
  with_scheme, needs_connection, context_fails, proxy_refused, reconnect, prepare, set_up, send,
  request_checked, request, call_pool, putback,
}

abbrev pub is_named : Scheme → Bool
is_named no_scheme = false
is_named _ = true

abbrev pub has_scheme : Option Uri → Bool
has_scheme none = false
has_scheme (some u) = is_named u.scheme

-- The request has a URI with a scheme and a host, no SSL context of its own and no proxy, and the
-- default SSL context can be made for it.
pub record IsPlain (r : Request) : Type 0 where
  pub hosted : check_uri r.uri ≡ none
  pub schemed : has_scheme r.uri ≡ true
  pub no_context : r.ssl_ctx ≡ none
  pub no_proxy : r.proxy ≡ none
  pub certified : r.verify_paths_fail ≡ false

module _ (default_port : Scheme → ℕ) where
  -- `netloc()` of a request, once it has a URI.
  abbrev pub location_at : Option Uri → Request → NetLoc
  location_at none r = record {
    host = [];
    port = 0;
    ssl_ctx = none;
    proxy = none;
    ssl_check_cert = true;
  }
  location_at (some u) r = netloc default_port u r

  abbrev pub location : Request → NetLoc
  location r = location_at r.uri r

  pub record IsStartable (n : NetLoc) (r : Request) : Type 0 where
    pub plain : IsPlain r
    pub located : location r ≡ n
    pub inactive : r.active ≡ false

  -- The client carries out a request of the location `n`; `calls` are its calls of the pool.
  pub record Serves (n : NetLoc) (calls : List PoolCall) (c : Client) : Type 0 where
    pub request : Request
    pub has_request : c.request ≡ some request
    pub plain : IsPlain request
    pub located : location request ≡ n
    pub at : c.netloc ≡ n
    pub pooled : c.pooled ≡ true
    pub called : c.pool_calls ≡ calls

  -- The client is idle at the location `n`.
  pub record Rests (n : NetLoc) (calls : List PoolCall) (c : Client) : Type 0 where
    pub no_request : c.request ≡ none
    pub at : c.netloc ≡ n
    pub pooled : c.pooled ≡ true
    pub called : c.pool_calls ≡ calls

  abbrev SentWell : NetLoc → Client → Client × Option HttpError × Request → Type 0
  SentWell n c t =
      (t.1 ≡ none)
      × (t.0.request ≡ some t.2)
      × IsPlain t.2
      × (location t.2 ≡ n)
      × (t.0.netloc ≡ n)
      × (t.0.pooled ≡ c.pooled)
      × (t.0.pool_calls ≡ c.pool_calls)

  with_scheme_lem : (u : Uri) → has_scheme (some u) ≡ true → with_scheme u ≡ u
  with_scheme_lem u h = ap (λ (s : Scheme). record u { scheme = s }) (keeps u.scheme h)
    where
      keeps :
          (s : Scheme)
          → is_named s ≡ true
          → elim s as (λ _. Scheme) [ no_scheme ↦ http | s' ↦ s' ] ≡ s
      keeps no_scheme e = cc
      keeps http e = refl
      keeps https e = refl
      keeps socks5 e = refl
      keeps (other_scheme k) e = refl

  abbrev claimed : Uri → Request → Request
  claimed u r = record r { active = true; uri = some u }

  -- The location of a request depends on no more than this, if it has no proxy.
  pub netloc_direct :
      (u : Uri) (r q : Request)
      → r.proxy ≡ none
      → q.proxy ≡ none
      → r.ssl_ctx ≡ q.ssl_ctx
      → r.ssl_check_cert ≡ q.ssl_check_cert
      → netloc default_port u r ≡ netloc default_port u q
  unfolding netloc netloc_of
  netloc_direct u r q a b x k = ground (arith, a, b, x, k)

  pub location_at_direct :
      (o : Option Uri) (r q : Request)
      → r.proxy ≡ none
      → q.proxy ≡ none
      → r.ssl_ctx ≡ q.ssl_ctx
      → r.ssl_check_cert ≡ q.ssl_check_cert
      → location_at o r ≡ location_at o q
  location_at_direct none r q a b x k = refl
  location_at_direct (some u) r q a b x k = netloc_direct u r q a b x k

  request_to-SentWell :
      (u : Uri) (r : Request) (c : Client)
      → r.uri ≡ some u
      → IsPlain r
      → SentWell (netloc default_port u r) c (
          let r' = claimed u r in
          if needs_connection (netloc default_port u r') r' c
          then (if context_fails u r'
              then (set_up u r' c, some no_verify_paths, r')
              else if proxy_refused r'.proxy
              then (set_up u r' c, some bad_proxy, r')
              else (send r' (reconnect (netloc default_port u r') u r' c), none, prepare r'))
          else (send r' c, none, prepare r'))
  unfolding send reconnect set_up prepare netloc
  request_to-SentWell u r c e p =
      if_elim (SentWell (netloc default_port u r) c)
        (needs_connection (netloc default_port u (claimed u r)) (claimed u r) c) _ _
        (λ _.
          if_elim (SentWell (netloc default_port u r) c) (context_fails u (claimed u r)) _ _
            (λ h. absurd (ground (arith, h, p.certified)))
            (λ _.
              if_elim (SentWell (netloc default_port u r) c) (proxy_refused r.proxy) _ _
                (λ h. absurd (ground (arith, h, p.no_proxy)))
                (λ _. (refl, refl, plain, located, claimed_location, refl, refl))))
        (λ h. (
          refl,
          refl,
          plain,
          located,
          netloc_eq→≡ _ _ (ground (arith, h)) ∙ claimed_location,
          refl,
          refl,
        ))
    where
      plain : IsPlain (prepare (claimed u r))
      plain = record {
        hosted = subst (λ o. check_uri o ≡ none) e p.hosted;
        schemed = subst (λ o. has_scheme o ≡ true) e p.schemed;
        no_context = p.no_context;
        no_proxy = p.no_proxy;
        certified = p.certified;
      }

      located : location (prepare (claimed u r)) ≡ netloc default_port u r
      located = netloc_direct u (prepare (claimed u r)) r p.no_proxy p.no_proxy refl refl

      claimed_location : netloc default_port u (claimed u r) ≡ netloc default_port u r
      claimed_location = netloc_direct u (claimed u r) r p.no_proxy p.no_proxy refl refl

  request_checked-SentWell :
      (o : Option Uri) (f : Option HttpError) (r : Request) (c : Client)
      → r.uri ≡ o
      → check_uri o ≡ f
      → IsPlain r
      → SentWell (location_at o r) c (request_checked default_port o f r c)
  unfolding check_uri
  request_checked-SentWell none f r c e q p = absurd (ground (arith, p.hosted, e))
  request_checked-SentWell (some u) (some f) r c e q p = absurd (ground (arith, p.hosted, e, q))
  request_checked-SentWell (some u) none r c e q p =
      subst (λ v. SentWell (netloc default_port u r) c (sent v))
        (sym (with_scheme_lem u (subst (λ o. has_scheme o ≡ true) e p.schemed)))
        (request_to-SentWell u r c e p)
    where
      sent : Uri → Client × Option HttpError × Request
      sent v =
          let r' = claimed v r in
          let n = netloc default_port v r' in
          if needs_connection n r' c
          then (if context_fails v r'
              then (set_up v r' c, some no_verify_paths, r')
              else if proxy_refused r'.proxy
              then (set_up v r' c, some bad_proxy, r')
              else (send r' (reconnect n v r' c), none, prepare r'))
          else (send r' c, none, prepare r')

  -- An idle client accepts a plain request that is not in progress, and is then at its location.
  pub request-SentWell :
      (n : NetLoc) (r : Request) (c : Client)
      → c.request ≡ none
      → IsStartable n r
      → SentWell n c (request default_port r c)
  unfolding request
  request-SentWell n r c e s =
      if_elim (SentWell n c) (is_some c.request) _ _ (λ h. absurd (ground (arith, h, e)))
        (λ _.
          if_elim (SentWell n c) r.active _ _ (λ h. absurd (ground (arith, h, s.inactive)))
            (λ _.
              subst (λ m. SentWell m c (request_checked default_port r.uri (check_uri r.uri) r c))
                s.located (request_checked-SentWell r.uri (check_uri r.uri) r c refl refl s.plain)))

  -- A client with the calls `calls`, which serves the request that waited, or rests.
  abbrev pub After : NetLoc → List PoolCall → Option Request → Client → Type 0
  After n calls none c = Rests n calls c
  After n calls (some q) c = Serves n calls c

  abbrev pub StartableIf : NetLoc → Option Request → Type 0
  StartableIf n none = Unit {0}
  StartableIf n (some q) = IsStartable n q

  pub putback-After :
      (n : NetLoc) (calls : List PoolCall) (o : Option Request) (c : Client)
      → Rests n calls c
      → StartableIf n o
      → After n (put_back n ∷ calls) o (putback default_port o c)
  putback-After n calls none c r s = record {
    no_request = r.no_request;
    at = r.at;
    pooled = r.pooled;
    called = put_back_calls;
  }
    where
      put_back_calls : put_back c.netloc ∷ c.pool_calls ≡ put_back n ∷ calls
      put_back_calls = cc (r.at, r.called)
  putback-After n calls (some q) c r s =
      let d = call_pool (put_back c.netloc) c in
      let t = request-SentWell n q d r.no_request s in
      record {
        request = (request default_port q d).2;
        has_request = t.1;
        plain = t.2;
        located = t.3;
        at = t.4;
        pooled = t.5 ∙ r.pooled;
        called = t.6 ∙ put_back_calls;
      }
    where
      put_back_calls : put_back c.netloc ∷ c.pool_calls ≡ put_back n ∷ calls
      put_back_calls = cc (r.at, r.called)
