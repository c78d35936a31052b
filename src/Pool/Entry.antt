-- ===== src/Pool/Entry.antt =====
-- One entry of the pool's table, and the table, through each change of an entry.
use uni_event_http.Base.{
  ℕ, suc, ◌+◌, ◌≤◌, ◌≡◌, refl, true, false, ◌&&◌, Option, none, some, List, [], ◌∷◌, ◌++◌, ◌==◌,
  arith, if◌then◌else◌, is_empty, if_elim, length,
}
use uni_event_http.Pool.State.{
  NetLoc, NetLocList, netloc_eq, set_insert, erase, has, find, store, assign, release,
  drop_inactive, check_entries,
}

-- A pool with the limit 0 makes one client for each location all the same.
abbrev pub limit : ℕ → ℕ
limit max = if max == 0 then 1 else max

-- `lo` and `hi` are the least and the greatest limit that the pool had.
pub record EntryWithin (lo hi : ℕ) (l : NetLocList) : Type 0 where
  pub populated : is_empty l.free ≡ true → is_empty l.busy ≡ false
  pub none_idle : is_empty l.queue ≡ false → is_empty l.free ≡ true
  pub all_busy : is_empty l.queue ≡ false → lo ≤ length l.busy
  pub bounded : length l.free + length l.busy ≤ limit hi

length-set_insert : (a : ℕ) (s : List ℕ) → length (set_insert a s) ≤ suc (length s)
unfolding set_insert
length-set_insert a [] = omega arith
length-set_insert a (b ∷ s) = ground (arith, length-set_insert a s)

set_insert-grows : (a : ℕ) (s : List ℕ) → length s ≤ length (set_insert a s)
unfolding set_insert
set_insert-grows a [] = omega arith
set_insert-grows a (b ∷ s) = ground (arith, set_insert-grows a s)

set_insert-nonempty : (a : ℕ) (s : List ℕ) → is_empty (set_insert a s) ≡ false
unfolding set_insert
set_insert-nonempty a [] = refl
set_insert-nonempty a (b ∷ s) = ground arith

pub length-erase : (a : ℕ) (s : List ℕ) → has a s ≡ true → suc (length (erase a s)) ≡ length s
unfolding erase
length-erase a [] h = cc
length-erase a (b ∷ s) h = ground (arith, length-erase a s)

erase-nonempty : (a : ℕ) (s : List ℕ) → is_empty (erase a s) ≡ false → is_empty s ≡ false
unfolding erase
erase-nonempty a [] h = h
erase-nonempty a (b ∷ s) h = refl

append-nonempty : (a : ℕ) (s : List ℕ) → is_empty (s ++ a ∷ []) ≡ false
append-nonempty a [] = refl
append-nonempty a (b ∷ s) = refl

length-drop_inactive :
    (last : ℕ → ℕ) (t : ℕ) (s : List ℕ) → length (drop_inactive last t s) ≤ length s
unfolding drop_inactive
length-drop_inactive last t [] = omega arith
length-drop_inactive last t (c ∷ s) = ground (arith, length-drop_inactive last t s)

pub assign-EntryWithin :
    (lo hi max new req : ℕ) (l : NetLocList)
    → lo ≤ max
    → max ≤ hi
    → EntryWithin lo hi l
    → EntryWithin lo hi (assign max new req l).0
unfolding assign
assign-EntryWithin lo hi max new req l a b f = by_free l.free refl
  where
    by_free : (free : List ℕ) → l.free ≡ free → EntryWithin lo hi (assign max new req l).0
    by_free [] e = ground (
      arith,
      length-set_insert new l.busy,
      set_insert-grows new l.busy,
      set_insert-nonempty new l.busy,
      append-nonempty req l.queue,
    )
    by_free (client ∷ free) e =
        ground (arith, length-set_insert client l.busy, set_insert-nonempty client l.busy)

pub release-EntryWithin :
    (lo hi client : ℕ) (l : NetLocList)
    → has client l.busy ≡ true
    → EntryWithin lo hi l
    → EntryWithin lo hi (release client l).0
unfolding release
release-EntryWithin lo hi client l h f = ground (
  arith,
  length-erase client l.busy,
  length-set_insert client l.free,
  set_insert-nonempty client l.free,
)

pub cancel-EntryWithin :
    (lo hi req : ℕ) (l : NetLocList)
    → EntryWithin lo hi l
    → EntryWithin lo hi (record l { queue = erase req l.queue })
cancel-EntryWithin lo hi req l f = ground (arith, erase-nonempty req l.queue)

pub new-EntryWithin :
    (lo hi client : ℕ) → EntryWithin lo hi (record { free = []; busy = client ∷ []; queue = [] })
new-EntryWithin lo hi client = ground arith

-- An entry that stays after the inactive clients were taken out.
pub inactive-EntryWithin :
    (last : ℕ → ℕ) (t lo hi : ℕ) (l : NetLocList)
    → (is_empty (drop_inactive last t l.free) && is_empty l.busy) ≡ false
    → EntryWithin lo hi l
    → EntryWithin lo hi (record l { free = drop_inactive last t l.free })
inactive-EntryWithin last t lo hi l n f = ground (arith, length-drop_inactive last t l.free)

abbrev pub AllWithin : (lo hi : ℕ) → List (NetLoc × NetLocList) → Type 0
AllWithin lo hi [] = Unit {0}
AllWithin lo hi ((n, l) ∷ t) = EntryWithin lo hi l × AllWithin lo hi t

abbrev pub WithinIfFound : (lo hi : ℕ) → Option NetLocList → Type 0
WithinIfFound lo hi none = Unit {0}
WithinIfFound lo hi (some l) = EntryWithin lo hi l

pub find-AllWithin :
    (lo hi : ℕ) (n : NetLoc) (t : List (NetLoc × NetLocList))
    → AllWithin lo hi t
    → WithinIfFound lo hi (find n t)
unfolding find
find-AllWithin lo hi n [] f = tt
find-AllWithin lo hi n ((k, l) ∷ t) f =
    if_elim (WithinIfFound lo hi) (netloc_eq k n) _ _ (λ _. f.0) (λ _. find-AllWithin lo hi n t f.1)

pub store-AllWithin :
    (lo hi : ℕ) (n : NetLoc) (l : NetLocList) (t : List (NetLoc × NetLocList))
    → EntryWithin lo hi l
    → AllWithin lo hi t
    → AllWithin lo hi (store n l t)
unfolding store
store-AllWithin lo hi n l [] g f = tt
store-AllWithin lo hi n l ((k, l') ∷ t) g f =
    let rest = store-AllWithin lo hi n l t g f.1 in
    if_elim (AllWithin lo hi) (netloc_eq k n) _ _ (λ _. (g, f.1)) (λ _. (f.0, rest))

pub append-AllWithin :
    (lo hi : ℕ) (n : NetLoc) (l : NetLocList) (t : List (NetLoc × NetLocList))
    → EntryWithin lo hi l
    → AllWithin lo hi t
    → AllWithin lo hi (t ++ (n, l) ∷ [])
append-AllWithin lo hi n l [] g f = (g, tt)
append-AllWithin lo hi n l ((k, l') ∷ t) g f = (f.0, append-AllWithin lo hi n l t g f.1)

pub check_entries-AllWithin :
    (last : ℕ → ℕ) (r lo hi : ℕ) (t : List (NetLoc × NetLocList))
    → AllWithin lo hi t
    → AllWithin lo hi (check_entries last r t)
unfolding check_entries
check_entries-AllWithin last r lo hi [] f = tt
check_entries-AllWithin last r lo hi ((n, l) ∷ t) f =
    let rest = check_entries-AllWithin last r lo hi t f.1 in
    if_elim (AllWithin lo hi) (is_empty (drop_inactive last r l.free) && is_empty l.busy) _ _
      (λ _. rest) (λ k. (inactive-EntryWithin last r lo hi l k f.0, rest))
