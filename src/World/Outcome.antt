-- ===== src/World/Outcome.antt =====
-- What one thing that happens to a client at work leads to: it goes on, it goes back to the pool, or it
-- goes back and hands the pool a redirected request.
use uni_event_http.Base.{
  ℕ, ◌≡◌, refl, true, false, not, ◌||◌, Option, none, some, List, [], ◌∷◌, sym, subst, ◌∙◌, arith,
  is_some, if_elim,
}
use uni_event_http.Error.{ErrorCode}
use uni_event_http.Server.Config.{eq_bytes→≡}
use uni_event_http.Pool.State.{NetLoc}
use uni_event_http.Client.State.{
  Scheme, Uri, Request, Response, PoolCall, put_back, pool_request, Client, netloc, netloc_of,
  check_uri,
}
use uni_event_http.Client.Request.{
  drop_connection, request, release_connection, finish_and_notify, final_error, putback,
  finish_with, finish_if, finish_request, cancel, stop_events, response_keeps,
}
use uni_event_http.Client.Redirect.{same_peer}
use uni_event_http.World.Plain.{
  IsPlain, location, location_at, IsStartable, Serves, Rests, request-SentWell, After, StartableIf,
  putback-After,
}

-- A pool's client with a request, at the location `n`, that has not called the pool.
pub record Holds (n : NetLoc) (c : Client) : Type 0 where
  pub request : Request
  pub has_request : c.request ≡ some request
  pub at : c.netloc ≡ n
  pub pooled : c.pooled ≡ true
  pub called : c.pool_calls ≡ []

pub changed-Holds :
    (n : NetLoc) (c d : Client) (r : Request)
    → d.request ≡ some r
    → d.netloc ≡ c.netloc
    → d.pooled ≡ c.pooled
    → d.pool_calls ≡ c.pool_calls
    → Holds n c
    → Holds n d
changed-Holds n c d r a b p k s = record {
  request = r;
  has_request = a;
  at = b ∙ s.at;
  pooled = p ∙ s.pooled;
  called = k ∙ s.called;
}

module _ (default_port : Scheme → ℕ) where
  pub data Outcome (n : NetLoc) (o : Option Request) (c : Client) : Type 0 where
    stays : Serves default_port n [] c → Outcome n o c
    returns : After default_port n (put_back n ∷ []) o c → Outcome n o c
    moves :
        (r : Request)
        → IsPlain r
        → r.active ≡ false
        → After default_port n (pool_request r ∷ put_back n ∷ []) o c
        → Outcome n o c

  pub Serves-Holds : (n : NetLoc) (c : Client) → Serves default_port n [] c → Holds n c
  Serves-Holds n c s = record {
    request = s.request;
    has_request = s.has_request;
    at = s.at;
    pooled = s.pooled;
    called = s.called;
  }

  release_connection-Rests :
      (n : NetLoc) (err : Option ErrorCode) (res : Option Response) (r : Request) (c : Client)
      → Holds n c
      → Rests default_port n []
          (release_connection err res r (record c { request = none; response = none }))
  unfolding release_connection drop_connection
  release_connection-Rests n err res r c s =
      if_elim (Rests default_port n [])
        (is_some err || not (response_keeps res) || not r.keep_alive) _ _
        (λ _. record { no_request = refl; at = s.at; pooled = s.pooled; called = s.called })
        (λ _. record { no_request = refl; at = s.at; pooled = s.pooled; called = s.called })

  -- Changes of the client that leave its request and its place alone.
  pub changed-After :
      (n : NetLoc) (calls calls' : List PoolCall) (o : Option Request) (c d : Client)
      → d.request ≡ c.request
      → d.netloc ≡ c.netloc
      → d.pooled ≡ c.pooled
      → (c.pool_calls ≡ calls → d.pool_calls ≡ calls')
      → After default_port n calls o c
      → After default_port n calls' o d
  changed-After n calls calls' none c d a b p k r = record {
    no_request = a ∙ r.no_request;
    at = b ∙ r.at;
    pooled = p ∙ r.pooled;
    called = k r.called;
  }
  changed-After n calls calls' (some q) c d a b p k s = record {
    request = s.request;
    has_request = a ∙ s.has_request;
    plain = s.plain;
    located = s.located;
    at = b ∙ s.at;
    pooled = p ∙ s.pooled;
    called = k s.called;
  }

  pub finish_request-Outcome :
      (now : ℕ) (n : NetLoc) (o : Option Request) (err : Option ErrorCode) (c : Client)
      → Holds n c
      → StartableIf default_port n o
      → Outcome n o (finish_request default_port now o err c)
  unfolding finish_request finish_with finish_and_notify
  finish_request-Outcome now n o err c s t =
      subst (λ p. Outcome n o (finish_if default_port now o err p c)) (sym s.has_request)
        (returns (ended s.request))
    where
      ended :
          (r : Request)
          → After default_port n (put_back n ∷ []) o (finish_if default_port now o err (some r) c)
      ended r =
          let err' = final_error err r in
          let released =
            release_connection err' c.response r (record c { request = none; response = none }) in
          let rests = release_connection-Rests n err' c.response r c s in
          let idle = record released {
            form_field = none;
            last_activity_time = now;
            events = stop_events released.form_field released.events;
          } in
          let there : Rests default_port n [] idle = record {
            no_request = rests.no_request;
            at = rests.at;
            pooled = rests.pooled;
            called = rests.called;
          } in
          if_elim
            (λ (d : Client).
              After default_port n (put_back n ∷ []) o (finish_and_notify r c.response err' d))
            c.pooled _ _
            (λ _.
              changed-After n _ _ o (putback default_port o idle) _ refl refl refl (λ e. e)
                (putback-After default_port n [] o idle there t))
            (λ h. absurd (ground (arith, h, s.pooled)))

  pub changed-Serves :
      (n : NetLoc) (c d : Client)
      → d.request ≡ c.request
      → d.netloc ≡ c.netloc
      → d.pooled ≡ c.pooled
      → d.pool_calls ≡ c.pool_calls
      → Serves default_port n [] c
      → Serves default_port n [] d
  changed-Serves n c d a b p k s = record {
    request = s.request;
    has_request = a ∙ s.has_request;
    plain = s.plain;
    located = s.located;
    at = b ∙ s.at;
    pooled = p ∙ s.pooled;
    called = k ∙ s.called;
  }

  pub changed-Outcome :
      (n : NetLoc) (o : Option Request) (c d : Client)
      → d.request ≡ c.request
      → d.netloc ≡ c.netloc
      → d.pooled ≡ c.pooled
      → d.pool_calls ≡ c.pool_calls
      → Outcome n o c
      → Outcome n o d
  changed-Outcome n o c d a b p k (stays s) = stays (changed-Serves n c d a b p k s)
  changed-Outcome n o c d a b p k (returns f) =
      returns (changed-After n _ _ o c d a b p (λ e. k ∙ e) f)
  changed-Outcome n o c d a b p k (moves r q i f) =
      moves r q i (changed-After n _ _ o c d a b p (λ e. k ∙ e) f)

  pub cancel-Outcome :
      (now : ℕ) (n : NetLoc) (o : Option Request) (err : ErrorCode) (c : Client)
      → Holds n c
      → StartableIf default_port n o
      → Outcome n o (cancel default_port now o err c)
  unfolding cancel
  cancel-Outcome now n o err c s t =
      if_elim (Outcome n o) (is_some c.request) _ _
        (λ _.
          finish_request-Outcome now n o (some err) _
            (changed-Holds n c _ s.request s.has_request refl refl refl s) t)
        (λ h. absurd (ground (arith, h, s.has_request)))

  -- The next request of a redirect, which starts on the same client.
  pub again-Serves :
      (n : NetLoc) (r : Request) (c : Client)
      → c.request ≡ none
      → c.pooled ≡ true
      → c.pool_calls ≡ []
      → IsStartable default_port n r
      → Serves default_port n [] (request default_port r c).0
  again-Serves n r c e p k s =
      let t = request-SentWell default_port n r c e s in
      record {
        request = (request default_port r c).2;
        has_request = t.1;
        plain = t.2;
        located = t.3;
        at = t.4;
        pooled = t.5 ∙ p;
        called = t.6 ∙ k;
      }

  -- A plain request to the host and port of the location `n` of a plain request is at `n`.
  pub same_peer-located :
      (n : NetLoc) (u : Uri) (r q : Request)
      → IsPlain r
      → IsPlain q
      → location default_port q ≡ n
      → r.ssl_check_cert ≡ q.ssl_check_cert
      → same_peer (netloc default_port u r) n ≡ true
      → netloc default_port u r ≡ n
  unfolding netloc netloc_of check_uri
  same_peer-located n u r q p p' l k h = by_uri q.uri refl
    where
      by_uri : (o : Option Uri) → q.uri ≡ o → netloc default_port u r ≡ n
      by_uri none e = absurd (ground (arith, p'.hosted, e))
      by_uri (some v) e =
          let there : netloc default_port v q ≡ n =
            subst (λ o. location_at default_port o q ≡ n) e l in
          subst (λ m. same_peer (netloc default_port u r) m ≡ true → netloc default_port u r ≡ m)
            there (same_place v) h
        where
          same_place :
              (v : Uri)
              → same_peer (netloc default_port u r) (netloc default_port v q) ≡ true
              → netloc default_port u r ≡ netloc default_port v q
          same_place v g = ground (
            arith,
            p.no_proxy,
            p'.no_proxy,
            p.no_context,
            p'.no_context,
            k,
            g,
            eq_bytes→≡ u.host v.host,
          )
