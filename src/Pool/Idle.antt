-- ===== src/Pool/Idle.antt =====
-- Which idle clients `check_inactivity` takes out of the pool.
use uni_event_http.Base.{
  ℕ, ◌+◌, ◌-◌, ◌≤◌, ◌<◌, ◌≡◌, refl, false, not, ◌&&◌, List, [], ◌∷◌, arith, ltb,
}
use uni_event_http.Pool.State.{has, drop_inactive, remove_time}

has-drop_inactive :
    (last : ℕ → ℕ) (t : ℕ) (s : List ℕ) (a : ℕ)
    → has a (drop_inactive last t s) ≡ (has a s && not (ltb (last a) t))
unfolding drop_inactive
has-drop_inactive last t [] a = refl
has-drop_inactive last t (c ∷ s) a = ground (arith, has-drop_inactive last t s a)

-- Once the loop's clock, of 64 bits, has reached the idle timeout, a client is idle after the check
-- exactly if it was before and its last activity was at most the idle timeout ago.
pub drop_inactive_exact :
    (last : ℕ → ℕ) (now timeout : ℕ) (s : List ℕ) (a : ℕ)
    → timeout ≤ now
    → now < 18446744073709551616
    → has a (drop_inactive last (remove_time now timeout) s)
      ≡ (has a s && not (ltb (last a + timeout) now))
drop_inactive_exact last now timeout s a h b =
    ground (arith, has-drop_inactive last (remove_time now timeout) s a, remove_time_exact)
  where
    remove_time_exact : remove_time now timeout ≡ now - timeout
    remove_time_exact = omega arith

-- While the loop's clock is below the idle timeout, which has 32 bits, the subtraction wraps around:
-- an idle client whose last activity is not in the future goes, however recent that was.
pub drop_inactive_early :
    (last : ℕ → ℕ) (now timeout : ℕ) (s : List ℕ) (a : ℕ)
    → now < timeout
    → timeout < 4294967296
    → last a ≤ now
    → has a (drop_inactive last (remove_time now timeout) s) ≡ false
drop_inactive_early last now timeout s a h b l =
    ground (arith, has-drop_inactive last (remove_time now timeout) s a, wrapped)
  where
    wrapped : now < remove_time now timeout
    wrapped = omega arith
