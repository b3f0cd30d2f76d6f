-- ===== src/Ptfs/Tests.antt =====
-- System calls over the list of the open descriptors, and the theorems at them.
use gitlstreefs.Base.{
  ℕ, suc, ◌≡◌, refl, ◌+◌, ◌≤◌, arith, Bool, false, not, ◌&&◌, ◌||◌, ◌==◌, if◌then◌else◌, Option,
  some, none, List, [], ◌∷◌, Bytes, codes,
}
use gitlstreefs.Base.Outcome.{done}
use gitlstreefs.Paths.{get_relative_path}
use gitlstreefs.Ptfs.{
  Syscall, openat, close, Answer, answer, errno, Reply, replied, refused, ebadf, State,
}
use gitlstreefs.Ptfs.Handler
use gitlstreefs.Ptfs.Callbacks.{fs_truncate, fs_open, fs_read, fs_release}
use gitlstreefs.Ptfs.Request.{Request, truncate, open_file, read, release, serve, serve_all}
use gitlstreefs.Ptfs.Tidy.{opens_or_closes, IsKernel, IsTidy}
use gitlstreefs.Ptfs.Tidy.Serving.{serve_all-IsTidy}
use gitlstreefs.Ptfs.Tidy.Leaks.{start, start-IsTidy, serve_all-released, fs_open_failed}

abbrev is_open : List ℕ → ℕ → Bool
is_open [] n = false
is_open (d ∷ ds) n = n == d || is_open ds n

abbrev without : ℕ → List ℕ → List ℕ
without fd [] = []
without fd (d ∷ ds) = let rest = without fd ds in if d == fd then rest else d ∷ rest

abbrev total : List ℕ → ℕ
total [] = 0
total (d ∷ ds) = d + total ds

abbrev syscall : Syscall → List ℕ → Answer × List ℕ
syscall (openat path flags mode) ds = (answer (suc (total ds)) [], suc (total ds) ∷ ds)
syscall (close (some fd)) ds = (answer 0 [], without fd ds)
syscall call ds = (answer 0 (codes "x"), ds)

abbrev scandirat : Bytes → List ℕ → Option (List Bytes) × List ℕ
scandirat path ds = (some (codes "." ∷ []), ds)

above-total : (n : ℕ) (ds : List ℕ) → total ds ≤ n → is_open ds (suc n) ≡ false
above-total n [] h = refl
above-total n (d ∷ ds) h = ground (arith, above-total n ds)

is_open-without :
    (fd n : ℕ) (ds : List ℕ) → is_open (without fd ds) n ≡ (not (n == fd) && is_open ds n)
is_open-without fd n [] = ground arith
is_open-without fd n (d ∷ ds) = ground (arith, is_open-without fd n ds)

syscall-other :
    (call : Syscall) (n : ℕ) (ds : List ℕ)
    → opens_or_closes call ≡ false
    → is_open (syscall call ds).1 n ≡ is_open ds n
syscall-other (openat path flags mode) n ds h = cc h
syscall-other (close (some fd)) n ds h = cc h
syscall-other _ n ds h = refl

syscall-IsKernel : IsKernel syscall scandirat is_open
syscall-IsKernel = record {
  openat-Opened = λ path flags mode ds. (above-total (total ds) ds (omega arith), λ n. refl);
  closed = λ fd n ds. is_open-without fd n ds;
  other = syscall-other;
  listed = λ path n ds. refl;
}

abbrev requests : List Request
requests =
    truncate (codes "/f") 7
    ∷ open_file (codes "/f") 0
    ∷ read (some 0) 9 1
    ∷ release (some 0)
    ∷ read none 9 1
    ∷ []

abbrev replies : List Reply
replies =
    replied 0 (codes "x") ∷ replied 0 [] ∷ replied 0 (codes "x") ∷ replied 0 [] ∷ refused ebadf ∷ []

requests-run :
    (st : State (List ℕ)) × (serve_all syscall scandirat requests (start (2 ∷ []))
      ≡ done (replies, st))
    × ((h : ℕ) → st.handles h ≡ none)
unfolding serve fs_truncate fs_open fs_read fs_release get_relative_path Handler.truncate
    Handler.open_path Handler.read Handler.release
requests-run = (_, refl, λ h. ground arith)

serve_all-released_example : is_open requests-run.0.world 3 ≡ is_open (2 ∷ []) 3
serve_all-released_example =
    serve_all-released syscall scandirat is_open syscall-IsKernel requests replies (2 ∷ [])
      requests-run.0 requests-run.1 requests-run.2 3

serve_all-IsTidy_example : IsTidy is_open (is_open (2 ∷ [])) requests-run.0
serve_all-IsTidy_example =
    serve_all-IsTidy syscall scandirat is_open syscall-IsKernel (is_open (2 ∷ [])) requests replies
      (start (2 ∷ [])) requests-run.0 (start-IsTidy is_open (2 ∷ [])) requests-run.1

-- Nothing may be opened.
abbrev denied : Syscall → ℕ → Answer × ℕ
denied call s = (errno 13, suc s)

abbrev no_names : Bytes → ℕ → Option (List Bytes) × ℕ
no_names path s = (none, s)

relative : get_relative_path (codes "/f") ≡ some (codes "f")
unfolding get_relative_path
relative = refl

fs_open_failed_example :
    fs_open denied no_names (codes "/f") 0 (start 4) ≡ done (refused ebadf, none, start 5)
fs_open_failed_example =
    fs_open_failed denied no_names (codes "/f") (codes "f") 0 13 (start 4) 5 relative refl
