-- ===== src/Concurrency/Reachable.antt =====
-- What holds of a limiter however its threads interleave.
use gitlstreefs.Base.{ℕ, suc, ◌+◌, ◌≤◌, ◌<◌, ◌≡◌, ◌⊎◌, List, [], ◌∷◌, arith, length}
use gitlstreefs.Concurrency.{Limiter, k_limit, remove}

length-remove_le : (a : ℕ) (xs : List ℕ) → length (remove a xs) ≤ length xs
length-remove_le a [] = omega arith
length-remove_le a (b ∷ xs) = ground (arith, length-remove_le a xs)

-- At most one more than the limit hold it, and where a thread sleeps that was not notified, the
-- holders and the notified threads together exceed the limit.
pub record IsSound (s : Limiter) : Type 0 where
  pub bounded : length s.messages ≤ suc k_limit
  pub awaited : (s.asleep ≡ []) ⊎ (k_limit < length s.messages + length s.notified)
