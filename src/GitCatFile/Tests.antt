-- ===== src/GitCatFile/Tests.antt =====
-- A pipe that delivers a first text at once and the rest byte by byte, and requests over it.
use gitlstreefs.Base.{
  ℕ, zero, suc, ◌<◌, ◌≡◌, ◌≢◌, refl, ap, sym, ◌∙◌, arith, false, Option, some, [], ◌∷◌, ◌++◌,
  append_assoc, Bytes, bytes_eq, codes, take, drop, take-append-drop,
}
use gitlstreefs.Base.Outcome.{done, out_of_fuel}
use gitlstreefs.GitCatFile.{object, fetch_loop, request}
use gitlstreefs.GitCatFile.Fetch.{IsPipe, fetch_loop-closed}
use gitlstreefs.GitCatFile.Request.{request-found_reply}

abbrev Pipe : Type 0
Pipe = Bytes × Bytes

abbrev read : ℕ → Pipe → Option Bytes × Pipe
read k (c ∷ f, r) = (some (take k (c ∷ f)), (drop k (c ∷ f), r))
read k ([], c ∷ r) = (some (c ∷ []), ([], r))
read k ([], []) = (some [], ([], []))

-- Whatever is asked for is an object of three bytes.
abbrev write : Bytes → Pipe → Pipe
write s p = (codes "abc blob 3\nx", codes "yz\n")

abbrev Holds : Pipe → Bytes → Type 0
Holds p t = p.0 ++ p.1 ≡ t

deliver :
    (k : ℕ) (p : Pipe) (t : Bytes)
    → 0 < k
    → t ≢ []
    → Holds p t
    → (b : Bytes) × (t' : Bytes) × (p' : Pipe) × (read k p ≡ (some b, p'))
      × (b ≢ [])
      × (b ++ t' ≡ t)
      × Holds p' t'
deliver zero p t h n e = absurd (omega arith)
deliver (suc k) ([], []) t h n e = absurd (n (sym e))
deliver (suc k) ([], c ∷ r) t h n e = (c ∷ [], r, ([], r), refl, (λ e. cc e), e, refl)
deliver (suc k) (c ∷ f, r) t h n e = (
  c ∷ take k f,
  drop k f ++ r,
  (drop k f, r),
  refl,
  λ e. cc e,
  ap (◌∷◌ c) (sym (append_assoc (take k f) (drop k f) r) ∙ ap (λ w. w ++ r) (take-append-drop k f))
      ∙ e,
  refl,
)

read-IsPipe : IsPipe read Holds
read-IsPipe = record { deliver = deliver }

not_missing : bytes_eq (codes "blob") (codes "missing") ≡ false
unfolding bytes_eq
not_missing = refl

request-found_reply_example :
    (p : Pipe) × (request read write 4 (codes "HEAD:file") ([], [])
      ≡ done (object (codes "xyz"), p))
    × Holds p []
request-found_reply_example =
    request-found_reply read write Holds read-IsPipe 4 (codes "HEAD:file") ([], [])
      ([], codes "yz\n") (codes "abc") (codes "blob") b'3' [] (codes "xyz") (codes "x")
      (codes "yz\n") refl refl refl refl not_missing (refl, tt) refl (omega arith) refl refl refl
      (omega arith)

fetch_loop-closed_example : fetch_loop read 1000 20 (codes "abc blob 3\n") ([], []) ≡ out_of_fuel
fetch_loop-closed_example =
    fetch_loop-closed read 1000 20 (codes "abc blob 3\n") ([], []) (omega arith) refl
