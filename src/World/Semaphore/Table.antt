-- ===== src/World/Semaphore/Table.antt =====
-- The table of a pool, of which each entry stands for a semaphore.
use uni_event_http.Base.{
  ℕ, ◌≡◌, refl, Bool, true, false, ◌&&◌, Option, none, some, List, [], ◌∷◌, ◌++◌, arith,
  if◌then◌else◌, sym, ap, subst, if_elim, is_empty,
}
use uni_event_http.Pool.State.{
  NetLoc, NetLocList, erase, has, find, store, netloc_eq, assign, release, drop_inactive,
  check_entries,
}
use uni_event_http.Pool.Entry.{EntryWithin, AllWithin, limit, length-erase}
use uni_event_http.Pool.Location.{netloc_eq→≡, find-store_same}
use uni_event_http.World.Table.{Distinct, find-store_other, find-append_here, find-append_other}
use uni_event_http.World.Semaphore.{arrive, leave, seen}
use uni_event_http.World.Semaphore.Numbered.{
  IsNumbered, next_after, later-IsNumbered, length-set_insert_new, count-has, checked-IsNumbered,
}

unfoldable pub AllNumbered : ℕ → List (NetLoc × NetLocList) → Type 0
AllNumbered next [] = Unit {0}
AllNumbered next ((n, l) ∷ t) = IsNumbered next l × AllNumbered next t

-- What a call started: the request, if it was given a client.
abbrev pub started_one : ℕ → Option ℕ → List ℕ
started_one req none = []
started_one req (some client) = req ∷ []

abbrev pub started_next : Option ℕ → List ℕ
started_next none = []
started_next (some req) = req ∷ []

-- A request that comes to an entry comes to its semaphore.
pub assign-seen :
    (max next req : ℕ) (l : NetLocList)
    → EntryWithin max max l
    → IsNumbered next l
    → let r = assign max next req l in
      (seen (some r.0), started_one req r.1) ≡ arrive (limit max) req (seen (some l))
unfolding assign
assign-seen max next req l f v = by_free l.free refl
  where
    by_free :
        (free : List ℕ)
        → l.free ≡ free
        → let r = assign max next req l in
          (seen (some r.0), started_one req r.1) ≡ arrive (limit max) req (seen (some l))
    by_free [] e =
        ground (arith, v.given next, count-has next l.busy, length-set_insert_new next l.busy)
    by_free (c ∷ free) e =
        ground (arith, f.bounded, v.once c, count-has c l.busy, length-set_insert_new c l.busy)

-- A client that comes back to an entry leaves its semaphore.
pub release-seen :
    (client : ℕ) (l : NetLocList)
    → has client l.busy ≡ true
    → let r = release client l in (seen (some r.0), started_next r.1) ≡ leave (seen (some l))
unfolding release
release-seen client l h = by_queue l.queue refl
  where
    by_queue :
        (q : List ℕ)
        → l.queue ≡ q
        → let r = release client l in (seen (some r.0), started_next r.1) ≡ leave (seen (some l))
    by_queue [] e = ground (arith, length-erase client l.busy h)
    by_queue (req ∷ q) e = ground arith

pub erase_missing : (a : ℕ) (s : List ℕ) → has a s ≡ false → erase a s ≡ s
unfolding erase
erase_missing a [] h = refl
erase_missing a (b ∷ s) h = ground (arith, erase_missing a s)

-- The check of the clients that are free changes no semaphore.
pub check_entries-seen :
    (last : ℕ → ℕ) (t max : ℕ) (n : NetLoc) (es : List (NetLoc × NetLocList))
    → AllWithin max max es
    → Distinct es
    → seen (find n (check_entries last t es)) ≡ seen (find n es)
unfolding check_entries find Distinct
check_entries-seen last t max n [] f d = refl
check_entries-seen last t max n ((k, l) ∷ es) f d =
    let rest = check_entries-seen last t max n es f.1 d.1 in
    if_elim (λ (z : List (NetLoc × NetLocList)). seen (find n z) ≡ seen (find n ((k, l) ∷ es)))
      (is_empty (drop_inactive last t l.free) && is_empty l.busy) _ _
      (λ h. ground (arith, rest, netloc_eq→≡ k n, d.0, no_queue h)) (λ _. ground (arith, rest))
  where
    no_queue : (is_empty (drop_inactive last t l.free) && is_empty l.busy) ≡ true → l.queue ≡ []
    no_queue h = by_queue l.queue refl
      where
        by_queue : (q : List ℕ) → l.queue ≡ q → q ≡ []
        by_queue [] e = refl
        by_queue (b ∷ q) e = absurd (ground (arith, f.0.none_idle, f.0.populated, h))

pub store-seen :
    (n m : NetLoc) (l l' : NetLocList) (t : List (NetLoc × NetLocList))
    → find n t ≡ some l
    → seen (find m (store n l' t)) ≡ (if netloc_eq n m then seen (some l') else seen (find m t))
store-seen n m l l' t e = by_equal (netloc_eq n m) refl
  where
    by_equal :
        (b : Bool)
        → netloc_eq n m ≡ b
        → seen (find m (store n l' t)) ≡ (if b then seen (some l') else seen (find m t))
    by_equal true h =
        subst (λ k. seen (find k (store n l' t)) ≡ seen (some l')) (netloc_eq→≡ n m h)
          (ap seen (find-store_same n l l' t e))
    by_equal false h = ap seen (find-store_other n m l' t h)

pub append-seen :
    (n m : NetLoc) (l : NetLocList) (t : List (NetLoc × NetLocList))
    → find n t ≡ none
    → seen (find m (t ++ (n, l) ∷ [])) ≡ (if netloc_eq n m then seen (some l) else seen (find m t))
append-seen n m l t e = by_equal (netloc_eq n m) refl
  where
    by_equal :
        (b : Bool)
        → netloc_eq n m ≡ b
        → seen (find m (t ++ (n, l) ∷ [])) ≡ (if b then seen (some l) else seen (find m t))
    by_equal true h =
        subst (λ k. seen (find k (t ++ (n, l) ∷ [])) ≡ seen (some l)) (netloc_eq→≡ n m h)
          (ap seen (find-append_here n l t e))
    by_equal false h = ap seen (find-append_other n m l t h)

-- What a location sees where nothing changed.
pub same-seen :
    (n m : NetLoc) (t : List (NetLoc × NetLocList))
    → seen (find m t) ≡ (if netloc_eq n m then seen (find n t) else seen (find m t))
same-seen n m t = by_equal (netloc_eq n m) refl
  where
    by_equal :
        (b : Bool)
        → netloc_eq n m ≡ b
        → seen (find m t) ≡ (if b then seen (find n t) else seen (find m t))
    by_equal true h = ap (λ k. seen (find k t)) (sym (netloc_eq→≡ n m h))
    by_equal false h = refl

abbrev pub NumberedIfFound : ℕ → Option NetLocList → Type 0
NumberedIfFound next none = Unit {0}
NumberedIfFound next (some l) = IsNumbered next l

pub find-AllNumbered :
    (next : ℕ) (n : NetLoc) (t : List (NetLoc × NetLocList))
    → AllNumbered next t
    → NumberedIfFound next (find n t)
unfolding find AllNumbered
find-AllNumbered next n [] v = tt
find-AllNumbered next n ((k, l) ∷ t) v =
    if_elim (NumberedIfFound next) (netloc_eq k n) _ _ (λ _. v.0)
      (λ _. find-AllNumbered next n t v.1)

pub later-AllNumbered :
    (next : ℕ) (o : Option ℕ) (t : List (NetLoc × NetLocList))
    → AllNumbered next t
    → AllNumbered (next_after next o) t
unfolding AllNumbered
later-AllNumbered next o [] v = tt
later-AllNumbered next o ((k, l) ∷ t) v =
    (later-IsNumbered next o l v.0, later-AllNumbered next o t v.1)

pub store-AllNumbered :
    (next : ℕ) (n : NetLoc) (l : NetLocList) (t : List (NetLoc × NetLocList))
    → IsNumbered next l
    → AllNumbered next t
    → AllNumbered next (store n l t)
unfolding AllNumbered store
store-AllNumbered next n l [] w v = tt
store-AllNumbered next n l ((k, m) ∷ t) w v =
    let rest = store-AllNumbered next n l t w v.1 in
    if_elim (AllNumbered next) (netloc_eq k n) _ _ (λ _. (w, v.1)) (λ _. (v.0, rest))

pub append-AllNumbered :
    (next : ℕ) (n : NetLoc) (l : NetLocList) (t : List (NetLoc × NetLocList))
    → IsNumbered next l
    → AllNumbered next t
    → AllNumbered next (t ++ (n, l) ∷ [])
unfolding AllNumbered
append-AllNumbered next n l [] w v = (w, tt)
append-AllNumbered next n l ((k, m) ∷ t) w v = (v.0, append-AllNumbered next n l t w v.1)

pub check_entries-AllNumbered :
    (last : ℕ → ℕ) (t next : ℕ) (es : List (NetLoc × NetLocList))
    → AllNumbered next es
    → AllNumbered next (check_entries last t es)
unfolding AllNumbered check_entries
check_entries-AllNumbered last t next [] v = tt
check_entries-AllNumbered last t next ((k, l) ∷ es) v =
    let rest = check_entries-AllNumbered last t next es v.1 in
    if_elim (AllNumbered next) (is_empty (drop_inactive last t l.free) && is_empty l.busy) _ _
      (λ _. rest) (λ _. (checked-IsNumbered last t next l v.0, rest))
