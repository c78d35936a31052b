-- ===== src/Examples/Pools.antt =====
-- The pool at work.
use uni_event_http.Base.{ℕ, ◌*◌, ◌≡◌, refl, true, false, none, some, [], ◌∷◌, arith}
use uni_event_http.Server.Config.{eq_bytes}
use uni_event_http.Pool.State.{
  NetLoc, NetLocList, Pool, find, netloc_eq, assign, store, new_pool, request, putback,
  set_max_connections, has, drop_inactive, remove_time,
}
use uni_event_http.Pool.Invariant.{BusyAt, PoolWithin, requests, puts_back, here as start, next}
use uni_event_http.Pool.History.{
  History, here, operates, sets_max, lowest, highest, History-PoolWithin,
}
use uni_event_http.Pool.Order.{putback_all, NoneWaits, putback_all-drains}
use uni_event_http.Pool.Conservation.{accounted, asked_by, asked_in, History-accounted}
use uni_event_http.Pool.Idle.{drop_inactive_exact, drop_inactive_early}
use uni_event_http.Pool.Entry.{limit}
use uni_event_http.World.Semaphore.{seen, ask, ends, perform, perform_all}
use uni_event_http.World.Semaphore.Refines.{requests_of}
use uni_event_http.World.Semaphore.Run.{call_of, calls_of, Reach-refines}

abbrev place : NetLoc
place = record { host = b'h' ∷ []; port = 80; ssl_ctx = none; proxy = none; ssl_check_cert = true }

-- Two requests to a pool with one client for each location, and the client comes back.
abbrev asked_twice : Pool
asked_twice = (request place 8 (request place 7 (new_pool 1 1000)).0).0

-- The limit is raised and lowered again in between.
abbrev much_asked : Pool
much_asked = set_max_connections 1 (set_max_connections 2 asked_twice)

abbrev much_asked-History : History (new_pool 1 1000) much_asked
much_asked-History =
    sets_max (sets_max (operates (operates here (requests place 7)) (requests place 8)) 2) 1

much_asked-find : BusyAt 0 (find place much_asked.clients)
unfolding new_pool find request netloc_eq eq_bytes assign store set_max_connections
much_asked-find = refl

abbrev put_back-History : History (new_pool 1 1000) (putback place 0 much_asked)
put_back-History = operates much_asked-History (puts_back place 0 much_asked-find)

History-PoolWithin_example : PoolWithin 1 2 (putback place 0 much_asked)
unfolding lowest highest
History-PoolWithin_example = History-PoolWithin 1 1000 put_back-History

History-accounted_example : accounted 8 (putback place 0 much_asked) ≡ 1
unfolding asked_in asked_by
History-accounted_example = History-accounted 1 1000 put_back-History 8

abbrev new_entry : NetLocList
new_entry = record { free = []; busy = 0 ∷ []; queue = [] }

abbrev crowded : Pool
crowded = record asked_twice {
  clients = (place, record new_entry { queue = 8 ∷ 9 ∷ [] }) ∷ [];
  started = (0, 7) ∷ [];
}

crowded-find : find place crowded.clients ≡ some (record new_entry { queue = 8 ∷ 9 ∷ [] })
unfolding find netloc_eq eq_bytes
crowded-find = refl

putback_all-drains_example :
    let q = putback_all place (0 ∷ 0 ∷ []) crowded in
    NoneWaits place q × (q.started ≡ (0, 9) ∷ (0, 8) ∷ (0, 7) ∷ [])
putback_all-drains_example =
    putback_all-drains place (0 ∷ 0 ∷ []) (record new_entry { queue = 8 ∷ 9 ∷ [] }) crowded
      crowded-find (omega arith)

-- Client 3 was active at 3000, and so on.
abbrev at_second : ℕ → ℕ
at_second c = c * 1000

drop_inactive_exact_example :
    has 3 (drop_inactive at_second (remove_time 9000 5000) (3 ∷ 6 ∷ [])) ≡ false
drop_inactive_exact_example =
    drop_inactive_exact at_second 9000 5000 (3 ∷ 6 ∷ []) 3 (omega arith) (omega arith)

drop_inactive_early_example :
    has 4 (drop_inactive at_second (remove_time 4500 5000) (4 ∷ [])) ≡ false
drop_inactive_early_example =
    drop_inactive_early at_second 4500 5000 (4 ∷ []) 4 (omega arith) (omega arith) (omega arith)

Reach-refines_example :
    let s = perform_all (limit 1) (ends place ∷ ask place 8 ∷ ask place 7 ∷ []) in
    ((n : NetLoc) → seen (find n (putback place 0 asked_twice).clients) ≡ s.at n)
    × (requests_of (putback place 0 asked_twice).started ≡ s.served)
unfolding new_pool find request netloc_eq eq_bytes assign store calls_of call_of
Reach-refines_example =
    Reach-refines 1 1000
      (next (next (next start (requests place 7)) (requests place 8)) (puts_back place 0 refl))

-- The second request is served when the first one ends.
asked_twice-served :
    (perform_all (limit 1) (ends place ∷ ask place 8 ∷ ask place 7 ∷ [])).served ≡ 8 ∷ 7 ∷ []
unfolding perform_all perform netloc_eq eq_bytes
asked_twice-served = refl
