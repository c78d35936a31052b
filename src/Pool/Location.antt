-- ===== src/Pool/Location.antt =====
-- Locations, and the tables that are kept by them.
use uni_event_http.Base.{◌≡◌, true, some, List, [], ◌∷◌, arith}
use uni_event_http.Server.Config.{eq_bytes→≡, eq_bytes_self}
use uni_event_http.Pool.State.{NetLoc, NetLocList, netloc_eq, find, store}

-- Two locations that compare equal are the same.
pub netloc_eq→≡ : (a b : NetLoc) → netloc_eq a b ≡ true → a ≡ b
unfolding netloc_eq
netloc_eq→≡ a b e = ground (arith, eq_bytes→≡ a.host b.host)

pub netloc_eq_self : (a : NetLoc) → netloc_eq a a ≡ true
unfolding netloc_eq
netloc_eq_self a = ground (arith, eq_bytes_self a.host)

pub find-store_same :
    (n : NetLoc) (l l' : NetLocList) (t : List (NetLoc × NetLocList))
    → find n t ≡ some l
    → find n (store n l' t) ≡ some l'
unfolding find store
find-store_same n l l' [] e = cc
find-store_same n l l' ((k, m) ∷ t) e = ground (arith, find-store_same n l l' t)
