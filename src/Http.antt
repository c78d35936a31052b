-- ===== src/Http.antt =====
-- The functions of src/panda/unievent/http.h and http.icc: a request on a loop, and a request for whose
-- response the caller waits. The pools, the event loop and the user's callbacks are parameters: what they
-- do to the thread's variables and to the rest of the program, and of what they notify the request.
pub mod Guard
use uni_event_http.Base.{
  ℕ, suc, ◌≡◌, refl, Bool, true, false, not, Option, none, some, List, [], ◌∷◌, ◌++◌, ◌∙◌, sym, ap,
  subst, arith, if◌then◌else◌, is_some, if_elim, length, ◌≢◌,
}
use uni_event_http.Error.{ErrorCode, HttpError}
use uni_event_http.Pool.State.{instance_of}
use uni_event_http.Client.State.{Uri, Request, Response}
use uni_event_http.Client.Build.{new_request}

-- `tls`, `sync_pool` and `Pool::_instances`: a pool is known by its number, and its loop by another;
-- `next` is the number of the next object.
pub record Thread : Type 0 where
  pub sync_loop : Option ℕ
  pub busy : Bool
  pub sync_pool : Option ℕ
  pub instances : List (ℕ × ℕ)
  pub next : ℕ

-- `expected<ResponseSP, ErrorCode>`: before any notification it holds a null response.
pub data Expected : Type 0 where
  value : Option Response → Expected
  unexpected : ErrorCode → Expected

pub data Outcome : Type 0 where
  returned : Expected → Outcome
  recursive_request : Outcome
  refused : HttpError → Outcome

-- The pool of the synchronous requests, which is made at the first.
pub sync_instance : Thread → ℕ × Thread
sync_instance t = elim t.sync_pool [
  | some pool ↦ (pool, t)
  | none ↦
      let found = instance_of t.next (suc t.next) t.instances in
      (
        found.0,
        record t {
          sync_loop = some t.next;
          sync_pool = some found.0;
          instances = found.1;
          next = suc (suc t.next);
        },
      )
]

-- What a notification of `response_event` is.
abbrev pub Notification : Type 0
Notification = Option Response × Option ErrorCode

-- The callback that `http_request_sync` adds.
abbrev pub on_response : Notification → Expected
on_response (res, none) = value res
on_response (res, some err) = unexpected err

pub notified : List Notification → Expected → Expected
notified [] ret = ret
notified (n ∷ ns) ret = notified ns (on_response n)

-- The end of `BusyGuard`.
abbrev pub release : Thread → Thread
release t = record t { busy = false }

module _ {S : Type 0} (is_empty_pool : ℕ → S → Bool) (run_pending : ℕ → Thread → S → Thread × S)
    (pool_request : ℕ → Request → S → S × Option HttpError)
    (run_loop : ℕ → Thread → S → (Thread × S) × List Notification) where
  abbrev pub after_request : ℕ → Thread → S × Option HttpError → Thread × S × Outcome
  after_request pool t (s, some e) = (release t, s, refused e)
  after_request pool t (s, none) =
      let ((t', s'), ns) = run_loop pool t s in
      (release t', s', returned (notified ns (value none)))

  abbrev pub guarded : ℕ → Request → Thread → S → Thread × S × Outcome
  guarded pool r t s =
      let (t', s') = if is_empty_pool pool s then (t, s) else run_pending pool t s in
      after_request pool t' (pool_request pool r s')

  pub http_request_sync : Request → Thread → S → Thread × S × Outcome
  http_request_sync r t s =
      let (pool, t') = sync_instance t in
      if t'.busy then (t', s, recursive_request) else guarded pool r (record t' { busy = true }) s

  -- `http_request` on a loop, or on the thread's default loop.
  unfoldable http_request :
      (default_loop : ℕ) → Request → Option ℕ → Thread → S → Thread × (S × Option HttpError)
  http_request default_loop r loop t s =
      let found = instance_of (elim loop [ none ↦ default_loop | some l ↦ l ]) t.next t.instances in
      (record t { instances = found.1; next = suc t.next }, pool_request found.0 r s)

  -- The request of `http_get`, and the two functions of that name.
  abbrev pub get_request : (default_ssl_verify : Bool) (blank : Request) → Uri → Request
  get_request default_ssl_verify blank u = record (new_request default_ssl_verify blank) {
    uri = some u;
    is_get = true;
  }

  unfoldable http_get :
      (default_ssl_verify : Bool) (blank : Request) (default_loop : ℕ)
      → Uri
      → Option ℕ
      → Thread
      → S
      → Thread × (S × Option HttpError)
  unfolding http_request
  http_get default_ssl_verify blank default_loop u loop t s =
      http_request default_loop (get_request default_ssl_verify blank u) loop t s

  unfoldable http_get_sync :
      (default_ssl_verify : Bool) (blank : Request) → Uri → Thread → S → Thread × S × Outcome
  unfolding http_request_sync
  http_get_sync default_ssl_verify blank u t s =
      http_request_sync (get_request default_ssl_verify blank u) t s
