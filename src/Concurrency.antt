-- ===== src/Concurrency.antt =====
-- concurrency_limit.h and concurrency_limit.cc: `ScopedConcurrencyLimit`. The objects are named by
-- numbers (their addresses, distinct while they live); every function below is one stretch of code
-- under the lock. Printing the messages is left out.
pub mod Reachable
mod Tests
use gitlstreefs.Base.{
  ℕ, Bool, true, false, ◌||◌, ◌⊎◌, ◌≡◌, List, [], ◌∷◌, ltb, ◌==◌, if◌then◌else◌, length,
}

-- `messages_`, the threads that sleep in `cv_.wait`, and those that were notified and have not run
-- yet.
pub record Limiter : Type 0 where
  pub messages : List ℕ
  pub asleep : List ℕ
  pub notified : List ℕ

abbrev pub k_limit : ℕ
k_limit = 6

abbrev pub no_messages : Limiter
no_messages = record { messages = []; asleep = []; notified = [] }

abbrev pub has : ℕ → List ℕ → Bool
has a [] = false
has a (b ∷ xs) = b == a || has a xs

abbrev pub remove : ℕ → List ℕ → List ℕ
remove a [] = []
remove a (b ∷ xs) = if b == a then xs else b ∷ remove a xs

-- The constructor, up to the insertion or to the first sleep.
unfoldable pub construct : Limiter → ℕ → Limiter
construct s a =
    if ltb k_limit (length s.messages)
    then record s { asleep = a ∷ s.asleep }
    else record s { messages = a ∷ s.messages }

-- A notified thread runs again: `cv_.wait` tests the predicate, then sleeps or returns.
unfoldable pub resume : Limiter → ℕ → Limiter
unfolding construct
resume s a = construct (record s { notified = remove a s.notified }) a

-- The same after a wakeup that nobody asked for.
unfoldable pub resume_spuriously : Limiter → ℕ → Limiter
unfolding construct
resume_spuriously s a = construct (record s { asleep = remove a s.asleep }) a

-- `notify_one`, where it picks the thread `w`.
unfoldable pub notify_one : Limiter → ℕ → Limiter
notify_one s w =
    if has w s.asleep then record s { asleep = remove w s.asleep; notified = w ∷ s.notified } else s

-- The destructor.
unfoldable pub destruct : Limiter → ℕ → ℕ → Limiter
unfolding notify_one
destruct s a w = notify_one (record s { messages = remove a s.messages }) w

-- What threads may do, one after the other under the lock.
pub data Step : Limiter → Limiter → Type 0 where
  constructed : {s : Limiter} (a : ℕ) → Step s (construct s a)
  resumed : {s : Limiter} (a : ℕ) → has a s.notified ≡ true → Step s (resume s a)
  woken : {s : Limiter} (a : ℕ) → has a s.asleep ≡ true → Step s (resume_spuriously s a)
  destructed :
      {s : Limiter} (a w : ℕ)
      → has a s.messages ≡ true
      → (s.asleep ≡ []) ⊎ (has w s.asleep ≡ true)
      → Step s (destruct s a w)

pub data Reached : Limiter → Type 0 where
  at_start : Reached no_messages
  then_step : {s t : Limiter} → Reached s → Step s t → Reached t
