-- ===== src/World/Entry.antt =====
-- What holds of an entry of the pool's table and of the clients and requests in it, and of all of them.
use uni_event_http.Base.{
  ℕ, ◌≤◌, ◌<◌, ◌≡◌, refl, Bool, true, false, ◌||◌, some, [], ◌==◌, ◌∙◌, sym, subst, arith,
}
use uni_event_http.Pool.State.{NetLoc, NetLocList, netloc_eq, has, find}
use uni_event_http.Pool.Conservation.{count}
use uni_event_http.Client.State.{Scheme}
use uni_event_http.World.Plain.{IsStartable, Serves, Rests}
use uni_event_http.Pool.Location.{netloc_eq→≡, netloc_eq_self}
use uni_event_http.World.State.{World}
use uni_event_http.World.Table.{Distinct}

-- The entry holds the client.
abbrev pub hosts : ℕ → NetLocList → Bool
hosts k l = has k l.free || has k l.busy

module _ (default_port : Scheme → ℕ) where
  -- Its free clients are idle at its location, its busy clients carry out a request of its location, no
  -- client is in it twice, and what waits in it can be started.
  pub record EntryHolds (n : NetLoc) (l : NetLocList) (w : World) : Type 0 where
    pub free : (k : ℕ) → has k l.free ≡ true → Rests default_port n [] (w.client k)
    pub busy : (k : ℕ) → has k l.busy ≡ true → Serves default_port n [] (w.client k)
    pub queue : (i : ℕ) → has i l.queue ≡ true → IsStartable default_port n (w.object i)
    pub known : (k : ℕ) → hosts k l ≡ true → k < w.pool.next_client
    pub numbered : (i : ℕ) → has i l.queue ≡ true → i < w.next_request
    pub once_free : (k : ℕ) → count k l.free ≤ 1
    pub once_busy : (k : ℕ) → count k l.busy ≤ 1

  pub record WorldHolds (w : World) : Type 0 where
    pub entries : (n : NetLoc) (l : NetLocList) → find n w.pool.clients ≡ some l → EntryHolds n l w
    pub distinct : Distinct w.pool.clients
    pub faultless : w.pool.faults ≡ []

  -- A change of the client `k` alone; requests that are there keep what they are.
  pub record Changes (k : ℕ) (w v : World) : Type 0 where
    pub clients : (j : ℕ) → (k == j) ≡ false → v.client j ≡ w.client j
    pub objects : (i : ℕ) → i < w.next_request → v.object i ≡ w.object i
    pub more_clients : w.pool.next_client ≤ v.pool.next_client
    pub more_requests : w.next_request ≤ v.next_request

  pub other-EntryHolds :
      (k : ℕ) (n : NetLoc) (l : NetLocList) (w v : World)
      → hosts k l ≡ false
      → Changes k w v
      → EntryHolds n l w
      → EntryHolds n l v
  other-EntryHolds k n l w v a c e = record {
    free = λ j h.
        subst (Rests default_port n []) (sym (c.clients j (away j (ground (arith, h)))))
          (e.free j h);
    busy = λ j h.
        subst (Serves default_port n []) (sym (c.clients j (away j (ground (arith, h)))))
          (e.busy j h);
    queue = λ i h.
        subst (IsStartable default_port n) (sym (c.objects i (e.numbered i h))) (e.queue i h);
    known = λ j h. omega (arith, e.known j h, c.more_clients);
    numbered = λ i h. omega (arith, e.numbered i h, c.more_requests);
    once_free = e.once_free;
    once_busy = e.once_busy;
  }
    where
      away : (j : ℕ) → hosts j l ≡ true → (k == j) ≡ false
      away j h = ground (arith, h, a)

  pub hosts-netloc :
      (k : ℕ) (n : NetLoc) (l : NetLocList) (w : World)
      → hosts k l ≡ true
      → EntryHolds n l w
      → (w.client k).netloc ≡ n
  hosts-netloc k n l w h e = by_free (has k l.free) refl
    where
      by_free : (b : Bool) → has k l.free ≡ b → (w.client k).netloc ≡ n
      by_free true f = (e.free k f).at
      by_free false f = (e.busy k (ground (arith, h, f))).at

  -- The client is in no other entry.
  abbrev Alone : ℕ → NetLoc → World → Type 0
  Alone k n w =
      (m : NetLoc) (l : NetLocList)
      → netloc_eq n m ≡ false
      → find m w.pool.clients ≡ some l
      → hosts k l ≡ false

  pub changed-WorldHolds :
      (k : ℕ) (n : NetLoc) (l : NetLocList) (w v : World)
      → Changes k w v
      → Alone k n w
      → find n v.pool.clients ≡ some l
      → ((m : NetLoc) → netloc_eq n m ≡ false → find m v.pool.clients ≡ find m w.pool.clients)
      → Distinct v.pool.clients
      → v.pool.faults ≡ []
      → EntryHolds n l v
      → WorldHolds w
      → WorldHolds v
  changed-WorldHolds k n l w v c a f o d z e s = record {
    entries = λ m l' g. by_place m l' (netloc_eq n m) refl g;
    distinct = d;
    faultless = z;
  }
    where
      by_place :
          (m : NetLoc) (l' : NetLocList) (b : Bool)
          → netloc_eq n m ≡ b
          → find m v.pool.clients ≡ some l'
          → EntryHolds m l' v
      by_place m l' true h g =
          subst (λ n'. EntryHolds n' l' v) (netloc_eq→≡ n m h)
            (subst (λ e'. EntryHolds n e' v) same e)
        where
          same : l ≡ l'
          same = ground (arith, f, g, netloc_eq→≡ n m h)
      by_place m l' false h g =
          let g' = sym (o m h) ∙ g in
          other-EntryHolds k m l' w v (a m l' h g') c (s.entries m l' g')

  -- A client of one entry is in no other.
  pub hosts-Alone :
      (k : ℕ) (n : NetLoc) (l : NetLocList) (w : World)
      → find n w.pool.clients ≡ some l
      → hosts k l ≡ true
      → WorldHolds w
      → Alone k n w
  hosts-Alone k n l w f h s m l' d g = by_host (hosts k l') refl
    where
      by_host : (b : Bool) → hosts k l' ≡ b → hosts k l' ≡ false
      by_host false q = q
      by_host true q = absurd (
          ground (
            arith,
            d,
            netloc_eq_self n,
            hosts-netloc k n l w h (s.entries n l f),
            hosts-netloc k m l' w q (s.entries m l' g),
          ))

  -- A new client is in no entry.
  pub new-not_hosted :
      (n : NetLoc) (l : NetLocList) (w : World)
      → EntryHolds n l w
      → hosts w.pool.next_client l ≡ false
  new-not_hosted n l w e = by_host (hosts w.pool.next_client l) refl
    where
      by_host : (b : Bool) → hosts w.pool.next_client l ≡ b → hosts w.pool.next_client l ≡ false
      by_host false q = q
      by_host true q = absurd (omega (arith, e.known w.pool.next_client q))

  pub new-Alone : (n : NetLoc) (w : World) → WorldHolds w → Alone w.pool.next_client n w
  new-Alone n w s m l d g = new-not_hosted m l w (s.entries m l g)

  -- No client is both free and busy in an entry.
  pub free-not_busy :
      (k : ℕ) (n : NetLoc) (l : NetLocList) (w : World)
      → EntryHolds n l w
      → has k l.free ≡ true
      → has k l.busy ≡ false
  free-not_busy k n l w e f = by_busy (has k l.busy) refl
    where
      by_busy : (b : Bool) → has k l.busy ≡ b → has k l.busy ≡ false
      by_busy false q = q
      by_busy true q = absurd (ground (arith, (e.free k f).no_request, (e.busy k q).has_request))

  pub busy-not_free :
      (k : ℕ) (n : NetLoc) (l : NetLocList) (w : World)
      → EntryHolds n l w
      → has k l.busy ≡ true
      → has k l.free ≡ false
  busy-not_free k n l w e f = by_free (has k l.free) refl
    where
      by_free : (b : Bool) → has k l.free ≡ b → has k l.free ≡ false
      by_free false q = q
      by_free true q = absurd (ground (arith, free-not_busy k n l w e q, f))
