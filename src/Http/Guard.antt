-- ===== src/Http/Guard.antt =====
-- The requests for whose response the caller waits (src/panda/unievent/http.icc): one at a time, and what
-- they return.
use uni_event_http.Base.{
  ℕ, ◌≡◌, refl, Bool, true, false, Option, none, some, List, [], ◌∷◌, ◌++◌, ◌∙◌, ap, arith,
  if◌then◌else◌, is_some, if_elim,
}
use uni_event_http.Error.{ErrorCode, HttpError}
use uni_event_http.Client.State.{Request, Response}
use uni_event_http.Http.{
  Thread, Expected, value, Outcome, returned, recursive_request, sync_instance, Notification,
  on_response, notified, after_request, guarded, http_request_sync, unexpected,
}

sync_instance-busy : (t : Thread) → (sync_instance t).1.busy ≡ t.busy
unfolding sync_instance
sync_instance-busy t = ground arith

sync_instance-same : (t : Thread) → is_some t.sync_pool ≡ true → (sync_instance t).1 ≡ t
unfolding sync_instance
sync_instance-same t h = ground (arith, h)

notified-last :
    (ns : List Notification) (n : Notification) (ret : Expected)
    → notified (ns ++ n ∷ []) ret ≡ on_response n
unfolding notified
notified-last [] n ret = refl
notified-last (m ∷ ns) n ret = notified-last ns n (on_response m)

module _ {S : Type 0} (is_empty_pool : ℕ → S → Bool) (run_pending : ℕ → Thread → S → Thread × S)
    (pool_request : ℕ → Request → S → S × Option HttpError)
    (run_loop : ℕ → Thread → S → (Thread × S) × List Notification) where
  after_request-busy :
      (pool : ℕ) (t : Thread) (x : S × Option HttpError)
      → (after_request is_empty_pool run_pending pool_request run_loop pool t x).0.busy ≡ false
  after_request-busy pool t (s, some e) = refl
  after_request-busy pool t (s, none) = refl

  guarded-busy :
      (pool : ℕ) (r : Request) (t : Thread) (s : S)
      → (guarded is_empty_pool run_pending pool_request run_loop pool r t s).0.busy ≡ false
  guarded-busy pool r t s =
      let u = if is_empty_pool pool s then (t, s) else run_pending pool t s in
      after_request-busy pool u.0 (pool_request pool r u.1)

  -- A call of `http_request_sync` that comes while another one runs in the thread, as from a callback,
  -- fails, and leaves the thread and the pools as they are. Any other call, also one that the pool
  -- refuses, leaves the thread free for the next.
  pub http_request_sync-guard :
      (r : Request) (t : Thread) (s : S)
      → (t.busy ≡ true → is_some t.sync_pool ≡ true)
      → (t.busy ≡ true
          → http_request_sync is_empty_pool run_pending pool_request run_loop r t s
            ≡ (t, s, recursive_request))
        × (t.busy ≡ false
            → (http_request_sync is_empty_pool run_pending pool_request run_loop r t s).0.busy
              ≡ false)
  unfolding http_request_sync
  http_request_sync-guard r t s h = (
    λ b.
        if_elim (λ (o : Thread × S × Outcome). o ≡ (t, s, recursive_request))
          (sync_instance t).1.busy _ _
          (λ _. ap (λ t'. (t', s, recursive_request)) (sync_instance-same t (h b)))
          (λ f. absurd (ground (arith, f, sync_instance-busy t, b))),
    λ b.
        if_elim (λ (o : Thread × S × Outcome). o.0.busy ≡ false) (sync_instance t).1.busy _ _
          (λ f. absurd (ground (arith, f, sync_instance-busy t, b)))
          (λ _. guarded-busy (sync_instance t).0 r _ s),
  )

  -- The pool takes the request, and its notifications in the loop are `ns`, and `n` as the last one.
  abbrev LastNotified : Request → Thread → S → List Notification → Notification → Type 0
  LastNotified r t s ns n =
      let (pool, t') = sync_instance t in
      let u =
        if is_empty_pool pool s
        then (record t' { busy = true }, s)
        else run_pending pool (record t' { busy = true }) s in
      let x = pool_request pool r u.1 in (x.1 ≡ none) × ((run_loop pool u.0 x.0).1 ≡ ns ++ n ∷ [])

  sync-last :
      (r : Request) (t : Thread) (s : S) (ns : List Notification) (n : Notification)
      → t.busy ≡ false
      → LastNotified r t s ns n
      → (http_request_sync is_empty_pool run_pending pool_request run_loop r t s).2
        ≡ returned (on_response n)
  unfolding http_request_sync
  sync-last r t s ns n b h =
      if_elim (λ (o : Thread × S × Outcome). o.2 ≡ returned (on_response n))
        (sync_instance t).1.busy _ _ (λ f. absurd (ground (arith, f, sync_instance-busy t, b)))
        (λ _. by_request (pool_request pool r u.1) h)
    where
      pool : ℕ
      pool = (sync_instance t).0

      t' : Thread
      t' = record (sync_instance t).1 { busy = true }

      u : Thread × S
      u = if is_empty_pool pool s then (t', s) else run_pending pool t' s

      by_request :
          (x : S × Option HttpError)
          → (x.1 ≡ none) × ((run_loop pool u.0 x.0).1 ≡ ns ++ n ∷ [])
          → (after_request is_empty_pool run_pending pool_request run_loop pool u.0 x).2
            ≡ returned (on_response n)
      by_request (s', some e) g = absurd (ground (arith, g.0))
      by_request (s', none) g =
          ap returned (ap (λ ms. notified ms (value none)) g.1 ∙ notified-last ns n (value none))

  -- `http_request_sync` returns what the last notification of the request tells, where the thread is
  -- free, the pool takes the request, and the request is notified at least once before the loop ends:
  -- the response, if that notification has no error, and otherwise the error.
  pub http_request_sync-last :
      (r : Request) (t : Thread) (s : S) (ns : List Notification) (res : Option Response)
      (err : Option ErrorCode)
      → t.busy ≡ false
      → LastNotified r t s ns (res, err)
      → (err ≡ none
          → (http_request_sync is_empty_pool run_pending pool_request run_loop r t s).2
            ≡ returned (value res))
        × ((e : ErrorCode)
            → err ≡ some e
            → (http_request_sync is_empty_pool run_pending pool_request run_loop r t s).2
              ≡ returned (unexpected e))
  http_request_sync-last r t s ns res err b h =
      let last = sync-last r t s ns (res, err) b h in
      (
        λ q. last ∙ ap (λ x. returned (on_response (res, x))) q,
        λ e q. last ∙ ap (λ x. returned (on_response (res, x))) q,
      )
