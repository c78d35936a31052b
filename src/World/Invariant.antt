-- ===== src/World/Invariant.antt =====
-- What holds of a pool, its clients and the requests that wait, through everything that happens.
use uni_event_http.Base.{
  ℕ, ◌≡◌, refl, Bool, true, false, Option, none, some, [], ◌∙◌, sym, subst, ap, arith, reverse,
  update,
}
use uni_event_http.Pool.State.{
  NetLoc, NetLocList, new_pool, has, find, set_idle_timeout, set_max_connections,
}
use uni_event_http.Client.State.{Scheme, Request, RedirectContext, Client}
use uni_event_http.Client.Redirect.{Reaction}
use uni_event_http.Client.Read.{Delivery, step}
use uni_event_http.World.Plain.{Rests}
use uni_event_http.World.Outcome.{changed-After}
use uni_event_http.World.Redirect.{KeepsPlain}
use uni_event_http.World.Rest.{step-Rests, step-Outcome}
use uni_event_http.World.State.{
  World, new_world, settle, first_of, waiting, deliver, IsRound, Step, asks, delivers, cancels,
  fires, sets_timeout, sets_max, Reach, here, next,
}
use uni_event_http.World.Table.{Distinct}
use uni_event_http.World.Entry.{hosts, EntryHolds, WorldHolds, hosts-netloc}
use uni_event_http.World.Calls.{ask-WorldHolds}
use uni_event_http.World.Keep.{
  stays-WorldHolds, startable, settle-WorldHolds, cancel_waiting-WorldHolds,
  fire_idle_timer-WorldHolds, same_table-WorldHolds,
}

module _ (default_port : Scheme → ℕ) (on_redirect : RedirectContext → Request → Reaction)
    (keeps : (ctx : RedirectContext) (r : Request) → KeepsPlain (on_redirect ctx r) r) where
  deliver-WorldHolds :
      (now k : ℕ) (n : NetLoc) (l : NetLocList) (d : Delivery) (w : World)
      → find n w.pool.clients ≡ some l
      → hosts k l ≡ true
      → IsRound d
      → WorldHolds default_port w
      → WorldHolds default_port (deliver default_port on_redirect now k d w)
  unfolding deliver settle
  deliver-WorldHolds now k n l d w f h r s =
      subst (λ o. WorldHolds default_port (delivered o)) (sym found) (by_place (has k l.busy) refl)
    where
      old : EntryHolds default_port n l w
      old = s.entries n l f

      found : waiting (find (w.client k).netloc w.pool.clients) w.object ≡ first_of l.queue w.object
      found =
          ap (λ o. waiting o w.object)
            (ap (λ m. find m w.pool.clients) (hosts-netloc default_port k n l w h old) ∙ f)

      after : Option Request → Client
      after o = step default_port on_redirect now o d (w.client k)

      delivered : Option Request → World
      delivered o =
          settle default_port k (reverse (after o).pool_calls)
            (record w { client = update w.client k (record (after o) { pool_calls = [] }) })

      by_place :
          (b : Bool)
          → has k l.busy ≡ b
          → WorldHolds default_port (delivered (first_of l.queue w.object))
      by_place true b =
          settle-WorldHolds default_port n l k (after (first_of l.queue w.object)) w f b
            (step-Outcome default_port on_redirect keeps now n (first_of l.queue w.object) d
              (w.client k) r (old.busy k b) (startable default_port n l w old))
            s
      by_place false b =
          subst
            (λ calls. WorldHolds default_port (
              settle default_port k (reverse calls)
                (record w { client = update w.client k (record idle { pool_calls = [] }) })))
            (sym rests.called)
            (stays-WorldHolds default_port n l k (record idle { pool_calls = [] }) w f h
              (λ _. changed-After default_port n [] [] none idle _ refl refl refl (λ e. refl) rests)
              (λ q. absurd (ground (arith, q, b))) s)
        where
          idle : Client
          idle = after (first_of l.queue w.object)

          rests : Rests default_port n [] idle
          rests =
              step-Rests default_port on_redirect now n (first_of l.queue w.object) d (w.client k) r
                (old.free k (ground (arith, h, b)))

module _ (default_port : Scheme → ℕ) (on_redirect : ℕ → RedirectContext → Request → Reaction)
    (keeps : (i : ℕ) (ctx : RedirectContext) (r : Request)
      → KeepsPlain (on_redirect i ctx r) r) where
  Step-WorldHolds :
      {w v : World}
      → Step default_port on_redirect w v
      → WorldHolds default_port w
      → WorldHolds default_port v
  Step-WorldHolds {w} (asks r p i) s = ask-WorldHolds default_port r w p i s
  Step-WorldHolds {w} (delivers i now k n l d f h r) s =
      deliver-WorldHolds default_port (on_redirect i) (keeps i) now k n l d w f h r s
  Step-WorldHolds {w} (cancels n l i f h) s = cancel_waiting-WorldHolds default_port n l i w f h s
  Step-WorldHolds {w} (fires now) s = fire_idle_timer-WorldHolds default_port now w s
  Step-WorldHolds {w} (sets_timeout val) s =
      same_table-WorldHolds default_port w (set_idle_timeout val w.pool)
        (unfold set_idle_timeout in refl) (unfold set_idle_timeout in refl)
        (unfold set_idle_timeout in refl) s
  Step-WorldHolds {w} (sets_max max) s =
      same_table-WorldHolds default_port w (set_max_connections max w.pool)
        (unfold set_max_connections in refl) (unfold set_max_connections in refl)
        (unfold set_max_connections in refl) s

  -- A request is plain if it has a URI with a scheme and a host, no SSL context of its own and no proxy,
  -- and the default SSL context can be made for it. Take every world that a new pool can reach by plain
  -- requests that are not in progress when they are made, by what happens to clients that the pool holds,
  -- with at most one message in a delivery and no request given to them but by the pool, by the
  -- cancelling of requests that wait, and by the pool's timer and its setters; let the handlers of
  -- `redirect_event`, where they let a plain request go on, leave it plain and leave its `ssl_check_cert`
  -- as it is. Then no call of `putback` or `cancel_request` found its entry, its client or its request
  -- missing; no location has two entries; a free client of an entry is idle at its location, and a busy
  -- one carries out a request of its location; no client is in an entry twice; and a request that waits
  -- in an entry is of its location and can be started.
  pub Reach-WorldHolds :
      (max timeout : ℕ) {w : World}
      → Reach default_port on_redirect (new_world max timeout) w
      → WorldHolds default_port w
  unfolding new_pool set_idle_timeout
  Reach-WorldHolds max timeout here = record {
    entries = λ n l f. absurd (unfold find in ground (arith, f));
    distinct = unfold Distinct in tt;
    faultless = refl;
  }
  Reach-WorldHolds max timeout (next r s) = Step-WorldHolds s (Reach-WorldHolds max timeout r)
