-- ===== src/World/State.antt =====
-- A pool with its clients and the requests that wait in it (Pool.cc, Client.cc, Request.icc of
-- src/panda/unievent/http): what a call of one does to the others. Each request that the pool is given
-- has the next number. A client's calls of the pool take effect in their order, when what happened to
-- the client is over: the client does not look at the pool, and takes the request that waits first.
use uni_event_http.Base.{
  ℕ, suc, ◌≡◌, Bool, true, false, ◌||◌, Option, none, some, List, [], ◌∷◌, ◌==◌, reverse, update,
  if◌then◌else◌,
}
use uni_event_http.Error.{HttpError}
use uni_event_http.Pool.State.{
  NetLoc, NetLocList, Pool, new_pool, has, find, cancel_request, set_idle_timeout,
  set_max_connections, on_idle_timer, request as entry_request, putback as entry_putback,
}
use uni_event_http.Client.State.{
  Scheme, Uri, Request, RedirectContext, PoolCall, put_back, pool_request, Client, new_client,
  netloc, check_uri,
}
use uni_event_http.Client.Request.{request as client_request}
use uni_event_http.Client.Redirect.{Reaction}
use uni_event_http.Client.Read.{Delivery, asked, data_read, step}
use uni_event_http.World.Plain.{IsPlain, location}

pub record World : Type 0 where
  pub pool : Pool
  pub client : ℕ → Client
  pub object : ℕ → Request
  pub next_request : ℕ

abbrev pub new_world : (max_connections idle_timeout : ℕ) → World
new_world max_connections idle_timeout = record {
  pool = new_pool max_connections idle_timeout;
  client = λ k. new_client true;
  object = λ i. record {
    uri = none;
    headers = [];
    cookies = [];
    has_body = false;
    chunked = false;
    is_get = true;
    keep_alive = true;
    identity_only = false;
    timeout = 0;
    connect_timeout = 0;
    tcp_nodelay = false;
    tcp_hints = 0;
    follow_redirect = true;
    redirection_limit = 20;
    redirection_counter = 0;
    ssl_ctx = none;
    ssl_check_cert = true;
    proxy = none;
    proxy_resolve = true;
    form_streaming = false;
    form = [];
    transfer_completed = false;
    active = false;
    timer_active = false;
    verify_paths_fail = false;
  };
  next_request = 0;
}

-- A request that waits has its timer running, if it has a time-out.
abbrev pub enqueued : Request → Request
enqueued r = record r { timer_active = if r.timeout == 0 then r.timer_active else true }

abbrev pub first_of : List ℕ → (ℕ → Request) → Option Request
first_of [] object = none
first_of (i ∷ queue) object = some (object i)

-- The request that the client's `putback` finds.
abbrev pub waiting : Option NetLocList → (ℕ → Request) → Option Request
waiting none object = none
waiting (some l) object = first_of l.queue object

module _ (default_port : Scheme → ℕ) where
  -- `new_client`, and `client->request(req)`.
  abbrev pub start_on : Bool → ℕ → Request → World → World
  start_on is_new k r w =
      let c = if is_new then new_client true else w.client k in
      record w { client = update w.client k (client_request default_port r c).0 }

  abbrev pub start_if : (next_client : ℕ) → Option ℕ → Request → World → World
  start_if next_client none r w = w
  start_if next_client (some k) r w = start_on (k == next_client) k r w

  abbrev pub ask_at : NetLoc → Request → World → World
  ask_at n r w =
      let t = entry_request n w.next_request w.pool in
      start_if w.pool.next_client t.1 r (record w {
        pool = t.0;
        object = update w.object w.next_request (enqueued r);
        next_request = suc w.next_request;
      })

  abbrev pub ask_checked :
      Option Uri → Option HttpError → Request → World → World × Option HttpError
  ask_checked u (some e) r w = (w, some e)
  ask_checked none none r w = (w, none)
  ask_checked (some u) none r w = (ask_at (netloc default_port u r) r w, none)

  -- `Pool::request`; the error is what it throws.
  unfoldable pub ask : Request → World → World × Option HttpError
  ask r w = ask_checked r.uri (check_uri r.uri) r w

  unfoldable pub settle : ℕ → List PoolCall → World → World
  settle k [] w = w
  settle k (put_back n ∷ calls) w = settle k calls (record w { pool = entry_putback n k w.pool })
  settle k (pool_request r ∷ calls) w = settle k calls (ask r w).0

  -- `Request::cancel` and the timer's `cancel_request`, for the request `i` that waits.
  unfoldable pub cancel_waiting : ℕ → World → World
  cancel_waiting i w = record w {
    pool = cancel_request (location default_port (w.object i)) i w.pool;
  }

  unfoldable pub fire_idle_timer : ℕ → World → World
  fire_idle_timer now w = record w {
    pool = on_idle_timer (λ k. (w.client k).last_activity_time) now w.pool;
  }

  module _ (on_redirect : RedirectContext → Request → Reaction) where
    -- What the loop, the stream and the user deliver to the client `k` at the time `now`.
    unfoldable pub deliver : ℕ → ℕ → Delivery → World → World
    deliver now k d w =
        let o = waiting (find (w.client k).netloc w.pool.clients) w.object in
        let c = step default_port on_redirect now o d (w.client k) in
        settle k (reverse c.pool_calls)
          (record w { client = update w.client k (record c { pool_calls = [] }) })

-- The user asks nothing of a client of the pool but through the pool, and a read is one round of the
-- loop of `on_read`: a longer one is several deliveries.
unfoldable pub IsRound : Delivery → Type 0
IsRound (asked r) = ⊥
IsRound (data_read []) = Unit {0}
IsRound (data_read (p ∷ [])) = Unit {0}
IsRound (data_read (p ∷ p' ∷ ps)) = ⊥
IsRound _ = Unit {0}

-- What happens in the world: requests come, are cancelled or time out while they wait, things happen to
-- the clients that the pool holds, and its timer and its setters run. The handlers of `redirect_event`
-- are one of a family, whose members differ as the state of the handlers does.
pub data Step (default_port : Scheme → ℕ) (on_redirect : ℕ → RedirectContext → Request → Reaction)
    (w : World) : World → Type 0 where
  asks :
      (r : Request)
      → IsPlain r
      → r.active ≡ false
      → Step default_port on_redirect w (ask default_port r w).0
  delivers :
      (i now k : ℕ) (n : NetLoc) (l : NetLocList) (d : Delivery)
      → find n w.pool.clients ≡ some l
      → (has k l.free || has k l.busy) ≡ true
      → IsRound d
      → Step default_port on_redirect w (deliver default_port (on_redirect i) now k d w)
  cancels :
      (n : NetLoc) (l : NetLocList) (i : ℕ)
      → find n w.pool.clients ≡ some l
      → has i l.queue ≡ true
      → Step default_port on_redirect w (cancel_waiting default_port i w)
  fires : (now : ℕ) → Step default_port on_redirect w (fire_idle_timer default_port now w)
  sets_timeout :
      (val : ℕ) → Step default_port on_redirect w (record w { pool = set_idle_timeout val w.pool })
  sets_max :
      (max : ℕ)
      → Step default_port on_redirect w (record w { pool = set_max_connections max w.pool })

pub data Reach (default_port : Scheme → ℕ) (on_redirect : ℕ → RedirectContext → Request → Reaction)
    (w : World) : World → Type 0 where
  here : Reach default_port on_redirect w w
  next :
      {v u : World}
      → Reach default_port on_redirect w v
      → Step default_port on_redirect v u
      → Reach default_port on_redirect w u
