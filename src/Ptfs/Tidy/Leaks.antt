-- ===== src/Ptfs/Tidy/Leaks.antt =====
-- What is open when every handle has been released, and what a failed open returns.
use gitlstreefs.Base.{
  ℕ, ◌≡◌, refl, sym, ◌∙◌, Bool, Bool-cases, Option, inl, inr, none, some, List, [], ◌∷◌, Bytes,
}
use gitlstreefs.Base.Outcome.{done}
use gitlstreefs.Paths.{get_relative_path}
use gitlstreefs.Ptfs.{Syscall, openat, Answer, errno, Reply, refused, ebadf, State}
use gitlstreefs.Ptfs.Handler.{open_path}
use gitlstreefs.Ptfs.Callbacks.{fs_open}
use gitlstreefs.Ptfs.Request.{Request, serve_all}
use gitlstreefs.Ptfs.Tidy.{IsKernel, IsTidy}
use gitlstreefs.Ptfs.Tidy.Serving.{serve_all-IsTidy}

-- The state after the file system is mounted.
abbrev pub start : {S : Type 0} → S → State S
start s = record { world = s; handles = λ h. none; next = 0 }

pub start-IsTidy :
    {S : Type 0} (is_open : S → ℕ → Bool) (s : S) → IsTidy is_open (is_open s) (start s)
start-IsTidy is_open s = record {
  holds = λ h fd e. absurd (cc e);
  single = λ h k fd e f. absurd (cc e);
  owned = λ fd e. inl e;
  kept = λ fd e. e;
  fresh = λ h le. refl;
}

module _ {S : Type 0} (syscall : Syscall → S → Answer × S)
    (scandirat : Bytes → S → Option (List Bytes) × S) (is_open : S → ℕ → Bool)
    (kernel : IsKernel syscall scandirat is_open) where
  -- Where the system calls treat descriptors as documented, after any sequence of requests to the
  -- freshly mounted file system that meets no undefined behaviour and leaves no live file handle,
  -- just the descriptors are open that were open before.
  pub serve_all-released :
      (qs : List Request) (replies : List Reply) (s : S) (st : State S)
      → serve_all syscall scandirat qs (start s) ≡ done (replies, st)
      → ((h : ℕ) → st.handles h ≡ none)
      → (fd : ℕ) → is_open st.world fd ≡ is_open s fd
  serve_all-released qs replies s st e gone fd =
      let t =
        serve_all-IsTidy syscall scandirat is_open kernel (is_open s) qs replies (start s) st
          (start-IsTidy is_open s) e in
      elim (Bool-cases (is_open st.world fd)) [
        | inl shown ↦ elim (t.owned fd shown) [
          | inl b ↦ shown ∙ sym b
          | inr (h, held) ↦ let n = gone h in absurd (cc (n, held))
        ]
        | inr hidden ↦ elim (Bool-cases (is_open s fd)) [
          | inl b ↦ absurd (let k = t.kept fd b in cc (hidden, k))
          | inr b ↦ hidden ∙ sym b
        ]
      ]

module _ {S : Type 0} (syscall : Syscall → S → Answer × S)
    (scandirat : Bytes → S → Option (List Bytes) × S) where
  -- Where `openat` fails on the relative path, whatever its error number is, `fs_open` returns
  -- -EBADF, makes no file handle and leaves the others as they are.
  pub fs_open_failed :
      (path relative : Bytes) (flags e : ℕ) (st : State S) (s : S)
      → get_relative_path path ≡ some relative
      → syscall (openat relative flags none) st.world ≡ (errno e, s)
      → fs_open syscall scandirat path flags st
        ≡ done (refused ebadf, none, record st { world = s })
  unfolding fs_open open_path get_relative_path
  fs_open_failed [] relative flags e st s r failed = cc r
  fs_open_failed (c ∷ path) relative flags e st s r failed = rw (r, failed)
