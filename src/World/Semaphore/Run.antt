-- ===== src/World/Semaphore/Run.antt =====
-- A pool is a semaphore for each location.
use uni_event_http.Base.{ℕ, ◌≡◌, refl, List, [], ◌∷◌, subst, ◌∙◌, if_elim, is_some}
use uni_event_http.Pool.State.{
  NetLoc, Pool, find, request, cancel_request, putback, check_inactivity, remove_time, new_pool,
  set_idle_timeout, on_idle_timer, destroy,
}
use uni_event_http.Pool.Invariant.{
  PoolFits, Step, requests, cancels, puts_back, destroys, sets_timeout, fires, checks, Reach, here,
  next, Step-PoolFits,
}
use uni_event_http.Pool.Entry.{limit}
use uni_event_http.World.Table.{Distinct, check_entries-Distinct}
use uni_event_http.World.Semaphore.{
  Semaphores, arrive, leave, withdraw, seen, PoolCall, ask, withdraws, ends, shut_down, tick,
  idle_semaphores, perform, perform_all,
}
use uni_event_http.World.Semaphore.Table.{
  AllNumbered, check_entries-seen, check_entries-AllNumbered,
}
use uni_event_http.World.Semaphore.Refines.{
  requests_of, Refines, set_at-Refines, request-Changed, putback-Changed, cancel_request-Changed,
  Changed,
}

-- What a step asks of the pool.
unfoldable pub call_of : {p q : Pool} → Step p q → PoolCall
call_of (requests n req) = ask n req
call_of (cancels n req) = withdraws n req
call_of (puts_back n client b) = ends n
call_of destroys = shut_down
call_of _ = tick

unfoldable pub calls_of : {p q : Pool} → Reach p q → List PoolCall
calls_of here = []
calls_of (next r s) = call_of s ∷ calls_of r

check_inactivity-Refines :
    (max : ℕ) (last : ℕ → ℕ) (now : ℕ) (p : Pool) (s : Semaphores)
    → PoolFits (check_inactivity last now p)
    → Refines max p s
    → Refines max (check_inactivity last now p) s
unfolding check_inactivity
check_inactivity-Refines max last now p s f v =
    let t = remove_time now p.idle_timeout in
    record {
      kept = v.kept;
      fits = f;
      distinct = check_entries-Distinct last t p.clients v.distinct;
      numbered = check_entries-AllNumbered last t p.next_client p.clients v.numbered;
      sees =
          λ n. check_entries-seen last t p.max_connections n p.clients v.fits v.distinct ∙ v.sees n;
      serves = v.serves;
    }

Step-Refines :
    (max : ℕ) (s : Semaphores) {p q : Pool} (k : Step p q)
    → Refines max p s
    → Refines max q (perform (limit max) (call_of k) s)
unfolding perform call_of
Step-Refines max s {p} (requests n req) v =
    set_at-Refines max n (arrive (limit max) req (s.at n)) p (request n req p).0 s
      (Step-PoolFits (requests n req) v.fits)
      (subst (λ x. Changed n (arrive (limit max) req x) p (request n req p).0) (v.sees n)
        (subst
          (λ m. Changed n (arrive (limit m) req (seen (find n p.clients))) p (request n req p).0)
          v.kept (request-Changed n req p v.fits v.distinct v.numbered)))
      v
Step-Refines max s {p} (cancels n req) v =
    set_at-Refines max n (withdraw req (s.at n), []) p (cancel_request n req p) s
      (Step-PoolFits (cancels n req) v.fits)
      (subst (λ x. Changed n (withdraw req x, []) p (cancel_request n req p)) (v.sees n)
        (cancel_request-Changed n req p v.distinct v.numbered))
      v
Step-Refines max s {p} (puts_back n client b) v =
    set_at-Refines max n (leave (s.at n)) p (putback n client p) s
      (Step-PoolFits (puts_back n client b) v.fits)
      (subst (λ x. Changed n (leave x) p (putback n client p)) (v.sees n)
        (putback-Changed n client p b v.distinct v.numbered))
      v
Step-Refines max s {p} destroys v =
    unfold destroy Distinct AllNumbered find in
    record {
      kept = v.kept;
      fits = tt;
      distinct = tt;
      numbered = tt;
      sees = λ n. refl;
      serves = v.serves;
    }
Step-Refines max s {p} (sets_timeout val) v =
    unfold set_idle_timeout in
    record {
      kept = v.kept;
      fits = v.fits;
      distinct = v.distinct;
      numbered = v.numbered;
      sees = v.sees;
      serves = v.serves;
    }
Step-Refines max s {p} (fires last now) v =
    unfold on_idle_timer in
    if_elim (λ q. Refines max q s) (is_some p.idle_timer) _ _
      (λ _. check_inactivity-Refines max last now p s (Step-PoolFits (checks last now) v.fits) v)
      (λ _. v)
Step-Refines max s {p} (checks last now) v =
    check_inactivity-Refines max last now p s (Step-PoolFits (checks last now) v.fits) v

new_pool-Refines : (max timeout : ℕ) → Refines max (new_pool max timeout) idle_semaphores
unfolding new_pool set_idle_timeout Distinct AllNumbered find requests_of
new_pool-Refines max timeout = record {
  kept = refl;
  fits = tt;
  distinct = tt;
  numbered = tt;
  sees = λ n. refl;
  serves = refl;
}

Run-Refines :
    (max timeout : ℕ) {p : Pool} (r : Reach (new_pool max timeout) p)
    → Refines max p (perform_all (limit max) (calls_of r))
unfolding perform_all calls_of
Run-Refines max timeout here = new_pool-Refines max timeout
Run-Refines max timeout (next r k) = Step-Refines max _ k (Run-Refines max timeout r)

-- A pool that starts empty is, at each location, a semaphore whose capacity is the limit of
-- connections (at least one): after any requests, cancellations, returns of busy clients, checks of
-- inactivity, settings of the timeout and destructions, as many clients are busy at a location as its
-- semaphore has requests at work, the same requests wait there in the same order, and the requests
-- that were given to a client are those that the semaphores served, in the order in which they served
-- them.
pub Reach-refines :
    (max timeout : ℕ) {p : Pool} (r : Reach (new_pool max timeout) p)
    → let s = perform_all (limit max) (calls_of r) in
      ((n : NetLoc) → seen (find n p.clients) ≡ s.at n) × (requests_of p.started ≡ s.served)
Reach-refines max timeout r = let v = Run-Refines max timeout r in (v.sees, v.serves)
