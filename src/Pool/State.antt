-- ===== src/Pool/State.antt =====
-- The client pool: Pool.h and Pool.cc, and `NetLoc` of Request.h (src/panda/unievent/http). A client
-- and a request are known by a number; what the client does with a request is not part of this model,
-- and `client->request(req)` is recorded in `started`.
use uni_event_http.Base.{
  ℕ, suc, ◌+◌, ◌-◌, ◌%◌, Bool, true, false, ◌&&◌, Option, none, some, List, [], ◌∷◌, ◌++◌, ◌==◌,
  ltb, leb, is_some, if◌then◌else◌, is_empty, length,
}
use uni_event_http.Server.Config.{eq_bytes, eq_option, eq_bool}

-- An SSL context and a proxy are compared as pointers.
pub record NetLoc : Type 0 where
  pub host : List ℕ
  pub port : ℕ
  pub ssl_ctx : Option ℕ
  pub proxy : Option ℕ
  pub ssl_check_cert : Bool

unfoldable pub netloc_eq : NetLoc → NetLoc → Bool
netloc_eq a b =
    eq_bytes a.host b.host
    && a.port == b.port
    && eq_option a.ssl_ctx b.ssl_ctx
    && eq_option a.proxy b.proxy
    && eq_bool a.ssl_check_cert b.ssl_check_cert

-- The sets hold clients in the order of their numbers, the queue the oldest request first.
pub record NetLocList : Type 0 where
  pub free : List ℕ
  pub busy : List ℕ
  pub queue : List ℕ

pub data Fault : Type 0 where
  no_entry not_busy not_queued : Fault

-- `idle_timer` holds the interval of the timer, if there is one; `started` holds the pairs of a client and the request that it was given, the newest first, and
-- `cancelled` the requests that were notified while they waited,
-- and `orphaned` the clients at work when the pool was destroyed.
pub record Pool : Type 0 where
  pub clients : List (NetLoc × NetLocList)
  pub max_connections : ℕ
  pub idle_timeout : ℕ
  pub idle_timer : Option ℕ
  pub next_client : ℕ
  pub started : List (ℕ × ℕ)
  pub cancelled : List ℕ
  pub orphaned : List ℕ
  pub faults : List Fault

-- The setter of `idle_timeout`, and of the interval of the timer that calls `check_inactivity`: at most
-- a second.
unfoldable pub set_idle_timeout : ℕ → Pool → Pool
set_idle_timeout val p = record p {
  idle_timeout = val;
  idle_timer = if val == 0 then none else some (if leb 1000 val then 1000 else val);
}

unfoldable pub set_max_connections : ℕ → Pool → Pool
set_max_connections value p = record p { max_connections = value }

unfoldable pub new_pool : (max_connections idle_timeout : ℕ) → Pool
unfolding set_idle_timeout
new_pool max_connections idle_timeout = set_idle_timeout idle_timeout (record {
  clients = [];
  max_connections = max_connections;
  idle_timeout = 0;
  idle_timer = none;
  next_client = 0;
  started = [];
  cancelled = [];
  orphaned = [];
  faults = [];
})

-- `std::set`.
unfoldable pub set_insert : ℕ → List ℕ → List ℕ
set_insert a [] = a ∷ []
set_insert a (b ∷ s) = if a == b then b ∷ s else if leb a b then a ∷ b ∷ s else b ∷ set_insert a s

unfoldable pub erase : ℕ → List ℕ → List ℕ
erase a [] = []
erase a (b ∷ s) = if b == a then s else b ∷ erase a s

abbrev pub has : ℕ → List ℕ → Bool
has a [] = false
has a (b ∷ s) = if b == a then true else has a s

-- `_clients.find` and a change of the entry that it finds.
unfoldable pub find : NetLoc → List (NetLoc × NetLocList) → Option NetLocList
find n [] = none
find n ((k, l) ∷ t) = if netloc_eq k n then some l else find n t

unfoldable pub store : NetLoc → NetLocList → List (NetLoc × NetLocList) → List (NetLoc × NetLocList)
store n l [] = []
store n l ((k, l') ∷ t) = if netloc_eq k n then (k, l) ∷ t else (k, l') ∷ store n l t

abbrev pub fail : Fault → Pool → Pool
fail f p = record p { faults = f ∷ p.faults }

-- `client->request(req)`.
abbrev start : ℕ → ℕ → Pool → Pool
start client req p = record p { started = (client, req) ∷ p.started }

-- The entry after `request`, with the client that serves it, if any does.
unfoldable pub assign : (max new req : ℕ) → NetLocList → NetLocList × Option ℕ
assign max new req l = elim l.free [
  | client ∷ free ↦ (record l { free = free; busy = set_insert client l.busy }, some client)
  | [] ↦
      if ltb (length l.busy) max
      then (record l { busy = set_insert new l.busy }, some new)
      else (record l { queue = l.queue ++ req ∷ [] }, none)
]

-- `new_client` is called where the client that serves the request is a new one.
abbrev pub started_on : ℕ → Option ℕ → Pool → Pool
started_on req none p = p
started_on req (some client) p =
    start client req
      (record p { next_client = if client == p.next_client then suc client else p.next_client })

abbrev pub request_at : NetLoc → ℕ → Option NetLocList → Pool → Pool × Option ℕ
request_at n req none p = (
  started_on req (some p.next_client) (record p {
    clients = p.clients ++ (n, record { free = []; busy = p.next_client ∷ []; queue = [] }) ∷ [];
  }),
  some p.next_client,
)
request_at n req (some l) p =
    let (l', client) = assign p.max_connections p.next_client req l in
    (started_on req client (record p { clients = store n l' p.clients }), client)

-- `request`, for a request whose `netloc()` is `n`.
unfoldable pub request : NetLoc → ℕ → Pool → Pool × Option ℕ
request n req p = request_at n req (find n p.clients) p

-- `cancel_request`; the user's callbacks make no call back into the pool.
abbrev pub cancel_at : NetLoc → ℕ → Option NetLocList → Pool → Pool
cancel_at n req none p = fail no_entry p
cancel_at n req (some l) p =
    if has req l.queue
    then record p {
      clients = store n (record l { queue = erase req l.queue }) p.clients;
      cancelled = req ∷ p.cancelled;
    }
    else fail not_queued p

unfoldable pub cancel_request : NetLoc → ℕ → Pool → Pool
cancel_request n req p = cancel_at n req (find n p.clients) p

-- The entry after `putback`, with the request that the client goes on with, if one waits.
unfoldable pub release : ℕ → NetLocList → NetLocList × Option ℕ
release client l = elim l.queue [
  | req ∷ queue ↦ (record l { queue = queue }, some req)
  | [] ↦ (record l { busy = erase client l.busy; free = set_insert client l.free }, none)
]

abbrev pub goes_on : ℕ → Option ℕ → Bool → Pool → Pool
goes_on client (some req) was_busy p = start client req p
goes_on client none true p = p
goes_on client none false p = fail not_busy p

abbrev pub putback_at : NetLoc → ℕ → Option NetLocList → Pool → Pool
putback_at n client none p = fail no_entry p
putback_at n client (some l) p =
    let (l', req) = release client l in
    goes_on client req (has client l.busy) (record p { clients = store n l' p.clients })

-- `putback` of a client whose `last_netloc()` is `n`.
unfoldable pub putback : NetLoc → ℕ → Pool → Pool
putback n client p = putback_at n client (find n p.clients) p

-- `_loop->now() - _idle_timeout` wraps around at 64 bits.
abbrev pub remove_time : ℕ → ℕ → ℕ
remove_time now idle_timeout = (now + 18446744073709551616 - idle_timeout) % 18446744073709551616

module _ (last_activity_time : ℕ → ℕ) where
  -- The inner loop of `check_inactivity`.
  unfoldable pub drop_inactive : ℕ → List ℕ → List ℕ
  drop_inactive remove_time [] = []
  drop_inactive remove_time (c ∷ free) =
      let rest = drop_inactive remove_time free in
      if ltb (last_activity_time c) remove_time then rest else c ∷ rest

  unfoldable pub check_entries : ℕ → List (NetLoc × NetLocList) → List (NetLoc × NetLocList)
  check_entries remove_time [] = []
  check_entries remove_time ((n, l) ∷ t) =
      let free = drop_inactive remove_time l.free in
      let rest = check_entries remove_time t in
      if is_empty free && is_empty l.busy then rest else (n, record l { free = free }) ∷ rest

  unfoldable pub check_inactivity : ℕ → Pool → Pool
  check_inactivity now p = record p {
    clients = check_entries (remove_time now p.idle_timeout) p.clients;
  }

-- `idle_timer->event`, which only an existing timer fires.
unfoldable pub on_idle_timer : (last_activity_time : ℕ → ℕ) → ℕ → Pool → Pool
on_idle_timer last_activity_time now p =
    if is_some p.idle_timer then check_inactivity last_activity_time now p else p

-- The destructor: the clients at work lose their pool, and the requests that wait are notified.
unfoldable pub all_busy : List (NetLoc × NetLocList) → List ℕ
all_busy [] = []
all_busy ((n, l) ∷ t) = l.busy ++ all_busy t

unfoldable pub all_queued : List (NetLoc × NetLocList) → List ℕ
all_queued [] = []
all_queued ((n, l) ∷ t) = l.queue ++ all_queued t

unfoldable pub notify_all : List ℕ → List ℕ → List ℕ
notify_all [] before = before
notify_all (req ∷ queue) before = notify_all queue (req ∷ before)

unfoldable pub destroy : Pool → Pool
destroy p = record p {
  clients = [];
  orphaned = all_busy p.clients;
  cancelled = notify_all (all_queued p.clients) p.cancelled;
}

-- `instance`: the pools of a thread, by the number of their loop; `new` is the pool that is made for a
-- loop that has none.
unfoldable pub instance_of : (loop new : ℕ) → List (ℕ × ℕ) → ℕ × List (ℕ × ℕ)
instance_of loop new [] = (new, (loop, new) ∷ [])
instance_of loop new ((k, pool) ∷ instances) =
    let rest = instance_of loop new instances in
    if k == loop then (pool, (k, pool) ∷ instances) else (rest.0, (k, pool) ∷ rest.1)

unfoldable nbusy : List (NetLoc × NetLocList) → ℕ
nbusy [] = 0
nbusy ((n, l) ∷ t) = length l.busy + nbusy t

unfoldable size : List (NetLoc × NetLocList) → ℕ
size [] = 0
size ((n, l) ∷ t) = length l.free + length l.busy + size t
