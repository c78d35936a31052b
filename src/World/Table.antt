-- ===== src/World/Table.antt =====
-- The table of a pool and its sets of clients (Pool.h, Pool.cc): what is found after a change.
use uni_event_http.Base.{
  ℕ, ◌+◌, ◌≤◌, ◌≡◌, refl, true, false, ◌&&◌, Option, none, some, List, [], ◌∷◌, ◌++◌, ◌==◌, ◌∙◌,
  arith, is_empty, if_elim,
}
use uni_event_http.Pool.State.{
  NetLoc, NetLocList, netloc_eq, set_insert, erase, has, find, store, drop_inactive, check_entries,
}
use uni_event_http.Pool.Conservation.{one, count}
use uni_event_http.Pool.Location.{netloc_eq→≡, netloc_eq_self}

pub has-set_insert :
    (j a : ℕ) (s : List ℕ) → has j (set_insert a s) ≡ true → (a == j) ≡ false → has j s ≡ true
unfolding set_insert
has-set_insert j a [] h e = ground arith
has-set_insert j a (b ∷ s) h e = ground (arith, has-set_insert j a s)

pub has-erase : (j a : ℕ) (s : List ℕ) → has j (erase a s) ≡ true → has j s ≡ true
unfolding erase
has-erase j a [] h = h
has-erase j a (b ∷ s) h = ground (arith, has-erase j a s)

pub has-count : (a : ℕ) (s : List ℕ) → has a s ≡ true → 1 ≤ count a s
has-count a [] h = ground arith
has-count a (b ∷ s) h = ground (arith, has-count a s)

count_none : (a : ℕ) (s : List ℕ) → has a s ≡ false → count a s ≡ 0
count_none a [] h = refl
count_none a (b ∷ s) h = ground (arith, count_none a s)

pub has-erase_self : (a : ℕ) (s : List ℕ) → count a s ≤ 1 → has a (erase a s) ≡ false
unfolding erase
has-erase_self a [] h = refl
has-erase_self a (b ∷ s) h = ground (arith, has-count a s, has-erase_self a s)

pub count-erase_le : (j a : ℕ) (s : List ℕ) → count j (erase a s) ≤ count j s
unfolding erase
count-erase_le j a [] = omega arith
count-erase_le j a (b ∷ s) = ground (arith, count-erase_le j a s)

pub added-set_insert : (j a : ℕ) (s : List ℕ) → count j (set_insert a s) ≤ count j s + one j a
unfolding set_insert
added-set_insert j a [] = ground arith
added-set_insert j a (b ∷ s) = ground (arith, added-set_insert j a s)

pub count-set_insert :
    (j a : ℕ) (s : List ℕ) → has a s ≡ false → count j s ≤ 1 → count j (set_insert a s) ≤ 1
count-set_insert j a s h c = ground (arith, added-set_insert j a s, count_none a s)

pub has-drop_inactive :
    (last : ℕ → ℕ) (t j : ℕ) (s : List ℕ) → has j (drop_inactive last t s) ≡ true → has j s ≡ true
unfolding drop_inactive
has-drop_inactive last t j [] h = h
has-drop_inactive last t j (a ∷ s) h = ground (arith, has-drop_inactive last t j s)

pub count-drop_inactive :
    (last : ℕ → ℕ) (t j : ℕ) (s : List ℕ) → count j (drop_inactive last t s) ≤ count j s
unfolding drop_inactive
count-drop_inactive last t j [] = omega arith
count-drop_inactive last t j (a ∷ s) = ground (arith, count-drop_inactive last t j s)

pub find-store_other :
    (n m : NetLoc) (l' : NetLocList) (t : List (NetLoc × NetLocList))
    → netloc_eq n m ≡ false
    → find m (store n l' t) ≡ find m t
unfolding find store
find-store_other n m l' [] e = refl
find-store_other n m l' ((k, l) ∷ t) e = ground (arith, find-store_other n m l' t, netloc_eq→≡ k n)

netloc_eq_swap : (a b : NetLoc) → netloc_eq a b ≡ false → netloc_eq b a ≡ false
netloc_eq_swap a b e = ground (arith, netloc_eq→≡ b a, netloc_eq_self a)

pub find-append_here :
    (n : NetLoc) (l : NetLocList) (t : List (NetLoc × NetLocList))
    → find n t ≡ none
    → find n (t ++ (n, l) ∷ []) ≡ some l
unfolding find
find-append_here n l [] e = ground (arith, netloc_eq_self n)
find-append_here n l ((k, m) ∷ t) e = ground (arith, find-append_here n l t)

pub find-append_other :
    (n m : NetLoc) (l : NetLocList) (t : List (NetLoc × NetLocList))
    → netloc_eq n m ≡ false
    → find m (t ++ (n, l) ∷ []) ≡ find m t
unfolding find
find-append_other n m l [] e = ground arith
find-append_other n m l ((k, l') ∷ t) e = ground (arith, find-append_other n m l t)

-- No location has two entries.
unfoldable pub Distinct : List (NetLoc × NetLocList) → Type 0
Distinct [] = Unit {0}
Distinct ((n, l) ∷ t) = (find n t ≡ none) × Distinct t

pub store-Distinct :
    (n : NetLoc) (l : NetLocList) (t : List (NetLoc × NetLocList))
    → Distinct t
    → Distinct (store n l t)
unfolding Distinct store
store-Distinct n l [] d = tt
store-Distinct n l ((k, m) ∷ t) d =
    let rest = store-Distinct n l t d.1 in
    if_elim Distinct (netloc_eq k n) _ _ (λ _. d)
      (λ h. (find-store_other n k l t (netloc_eq_swap k n h) ∙ d.0, rest))

pub append-Distinct :
    (n : NetLoc) (l : NetLocList) (t : List (NetLoc × NetLocList))
    → find n t ≡ none
    → Distinct t
    → Distinct (t ++ (n, l) ∷ [])
unfolding Distinct find
append-Distinct n l [] e d = (refl, tt)
append-Distinct n l ((k, m) ∷ t) e d = (
  find-append_other n k l t (netloc_eq_swap k n (ground (arith, e))) ∙ d.0,
  append-Distinct n l t (ground (arith, e)) d.1,
)

module _ (last : ℕ → ℕ) (r : ℕ) where
  find-check_entries-none :
      (n : NetLoc) (t : List (NetLoc × NetLocList))
      → find n t ≡ none
      → find n (check_entries last r t) ≡ none
  unfolding find check_entries
  find-check_entries-none n [] e = refl
  find-check_entries-none n ((k, l) ∷ t) e = ground (arith, find-check_entries-none n t)

  pub check_entries-Distinct :
      (t : List (NetLoc × NetLocList)) → Distinct t → Distinct (check_entries last r t)
  unfolding Distinct check_entries
  check_entries-Distinct [] d = tt
  check_entries-Distinct ((k, l) ∷ t) d =
      let rest = check_entries-Distinct t d.1 in
      if_elim Distinct (is_empty (drop_inactive last r l.free) && is_empty l.busy) _ _ (λ _. rest)
        (λ _. (find-check_entries-none k t d.0, rest))

  -- The entry that an entry after the check was before it.
  pub record Before (n : NetLoc) (l : NetLocList) (t : List (NetLoc × NetLocList)) : Type 0 where
    pub entry : NetLocList
    pub found : find n t ≡ some entry
    pub is_checked : l ≡ record entry { free = drop_inactive last r entry.free }

  later-Before :
      (n k : NetLoc) (l m : NetLocList) (t : List (NetLoc × NetLocList))
      → find k t ≡ none
      → Before n l t
      → Before n l ((k, m) ∷ t)
  unfolding find
  later-Before n k l m t d b = record {
    entry = b.entry;
    found = ground (arith, b.found, d, netloc_eq→≡ k n);
    is_checked = b.is_checked;
  }

  pub find-check_entries :
      (n : NetLoc) (l : NetLocList) (t : List (NetLoc × NetLocList))
      → Distinct t
      → find n (check_entries last r t) ≡ some l
      → Before n l t
  unfolding find check_entries Distinct
  find-check_entries n l [] d e = absurd (ground (arith, e))
  find-check_entries n l ((k, m) ∷ t) d e =
      if_elim (λ (t' : List (NetLoc × NetLocList)). find n t' ≡ some l → Before n l ((k, m) ∷ t))
        (is_empty (drop_inactive last r m.free) && is_empty m.busy) _ _
        (λ _ f. later-Before n k l m t d.0 (find-check_entries n l t d.1 f))
        (λ _.
          if_elim (λ (o : Option NetLocList). o ≡ some l → Before n l ((k, m) ∷ t)) (netloc_eq k n)
            _ _
            (λ h f. record { entry = m; found = ground (arith, h); is_checked = ground (arith, f) })
            (λ _ f. later-Before n k l m t d.0 (find-check_entries n l t d.1 f)))
        e
