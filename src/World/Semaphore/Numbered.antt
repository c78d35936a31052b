-- ===== src/World/Semaphore/Numbered.antt =====
-- A client stands in one set of its entry, once, and has a number that was given out.
use uni_event_http.Base.{
  ℕ, suc, ◌+◌, ◌≤◌, ◌≡◌, refl, true, false, Option, none, some, List, [], ◌∷◌, ◌==◌, arith,
  if◌then◌else◌, length,
}
use uni_event_http.Pool.State.{NetLocList, set_insert, has, assign, release, drop_inactive}
use uni_event_http.Pool.Conservation.{count, count-erase}
use uni_event_http.World.Table.{added-set_insert, count-drop_inactive}

pub record IsNumbered (next : ℕ) (l : NetLocList) : Type 0 where
  pub once : (a : ℕ) → count a l.free + count a l.busy ≤ 1
  pub given : (a : ℕ) → next ≤ a → count a l.free + count a l.busy ≡ 0

-- The number of the client that is made next, after a client was taken.
abbrev pub next_after : ℕ → Option ℕ → ℕ
next_after next none = next
next_after next (some client) = if client == next then suc client else next

pub later-IsNumbered :
    (next : ℕ) (o : Option ℕ) (l : NetLocList)
    → IsNumbered next l
    → IsNumbered (next_after next o) l
later-IsNumbered next none l v = v
later-IsNumbered next (some c) l v = record {
  once = v.once;
  given = λ a h. v.given a (ground (arith, h));
}

pub count-has : (a : ℕ) (s : List ℕ) → count a s ≡ 0 → has a s ≡ false
count-has a [] h = refl
count-has a (b ∷ s) h = ground (arith, count-has a s)

pub length-set_insert_new :
    (a : ℕ) (s : List ℕ) → has a s ≡ false → length (set_insert a s) ≡ suc (length s)
unfolding set_insert
length-set_insert_new a [] h = refl
length-set_insert_new a (b ∷ s) h = ground (arith, length-set_insert_new a s)

pub assign-IsNumbered :
    (max next req : ℕ) (l : NetLocList)
    → IsNumbered next l
    → let r = assign max next req l in IsNumbered (next_after next r.1) r.0
unfolding assign
assign-IsNumbered max next req l v = by_free l.free refl
  where
    by_free :
        (free : List ℕ)
        → l.free ≡ free
        → let r = assign max next req l in IsNumbered (next_after next r.1) r.0
    by_free [] e = record {
      once = λ a. ground (arith, v.once a, v.given next, added-set_insert a next l.busy);
      given = λ a h. ground (arith, v.given a, added-set_insert a next l.busy);
    }
    by_free (c ∷ free) e = record {
      once = λ a. ground (arith, v.once a, added-set_insert a c l.busy);
      given = λ a h. ground (arith, v.given a, v.given c, added-set_insert a c l.busy);
    }

pub release-IsNumbered :
    (next client : ℕ) (l : NetLocList)
    → has client l.busy ≡ true
    → IsNumbered next l
    → IsNumbered next (release client l).0
unfolding release
release-IsNumbered next client l h v = by_queue l.queue refl
  where
    by_queue : (q : List ℕ) → l.queue ≡ q → IsNumbered next (release client l).0
    by_queue [] e = record {
      once = λ a.
          ground (arith, v.once a, added-set_insert a client l.free, count-erase a client l.busy h);
      given = λ a k.
          ground
            (arith, v.given a k, added-set_insert a client l.free, count-erase a client l.busy h);
    }
    by_queue (r ∷ q) e = record {
      once = λ a. ground (arith, v.once a);
      given = λ a k. ground (arith, v.given a k);
    }

pub checked-IsNumbered :
    (last : ℕ → ℕ) (t next : ℕ) (l : NetLocList)
    → IsNumbered next l
    → IsNumbered next (record l { free = drop_inactive last t l.free })
checked-IsNumbered last t next l v = record {
  once = λ a. omega (arith, v.once a, count-drop_inactive last t a l.free);
  given = λ a h. omega (arith, v.given a h, count-drop_inactive last t a l.free);
}
