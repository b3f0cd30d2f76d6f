-- ===== src/Concurrency/Tests.antt =====
-- Seven threads hold a limiter at once, and the eighth sleeps until one leaves.
use gitlstreefs.Base.{ℕ, ◌≡◌, refl, List, [], ◌∷◌, length}
use gitlstreefs.Concurrency.{Limiter, no_messages, construct, resume, notify_one, destruct}

abbrev construct_all : List ℕ → Limiter → Limiter
construct_all [] s = s
construct_all (a ∷ xs) s = construct_all xs (construct s a)

abbrev eight : Limiter
eight = construct_all (1 ∷ 2 ∷ 3 ∷ 4 ∷ 5 ∷ 6 ∷ 7 ∷ 8 ∷ []) no_messages

seven_messages : length eight.messages ≡ 7
unfolding construct
seven_messages = refl

eight_asleep : eight.asleep ≡ 8 ∷ []
unfolding construct
eight_asleep = refl

handed_over : (resume (destruct eight 3 8) 8).messages ≡ 8 ∷ 7 ∷ 6 ∷ 5 ∷ 4 ∷ 2 ∷ 1 ∷ []
unfolding construct destruct notify_one resume
handed_over = refl
