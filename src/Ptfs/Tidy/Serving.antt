-- ===== src/Ptfs/Tidy/Serving.antt =====
-- Every request leaves the descriptors tidy.
use mathlib.Core.Path.{subst}
use gitlstreefs.Base.{
  ℕ, ◌≡◌, refl, Bool, true, false, ◌==◌, Bool-cases, Option, Option-cases, inl, inr, none, some,
  List, [], ◌∷◌, arith, Bytes, ◌+◌, ◌-◌, ◌%◌, ◌^◌,
}
use gitlstreefs.Base.Outcome.{Outcome, done, undefined, out_of_fuel, defined, ◌>>=◌}
use gitlstreefs.Paths.{get_relative_path}
use gitlstreefs.Container.{update}
use gitlstreefs.Ptfs.{
  Syscall, openat, close, Answer, answer, errno, Reply, FileHandle, State, Served, lift,
  declare_relative, use_object, use_filehandle, fsync, fdatasync, fstatat, fstat, pread, pwrite,
  unlinkat, fchmodat, fchownat, ftruncate, utimensat, mknodat, linkat, fstatvfs, symlinkat,
  readlinkat, mkdirat, posix_fallocate, fsetxattr, fgetxattr, flistxattr, fremovexattr, renameat2,
  refused, enoent,
}
use gitlstreefs.Ptfs.Handler.{
  opened, wrap, within, with_fd, errno_or_zero, errno_or_result, terminated, o_rdonly, o_wronly,
  at_removedir,
}
use gitlstreefs.Ptfs.Handler
use gitlstreefs.Ptfs.Callbacks
use gitlstreefs.Ptfs.Callbacks.{keep_handle, get_file_handle, fs_release}
use gitlstreefs.Ptfs.Request.{
  Request, chmod, chown, create, fallocate, getattr, getxattr, link, listxattr, mkdir, mknod,
  open_file, opendir, read, read_buf, readdir, readlink, release, releasedir, removexattr, rename,
  rmdir, setxattr, statfs, symlink, truncate, unlink, utimens, write, serve, serve_all,
}
use gitlstreefs.Ptfs.Tidy.{
  opens_or_closes, Opened, IsKernel, IsTidy, same-IsTidy, keep_handle-IsTidy, release-IsTidy,
  drop_handle-IsTidy,
}

abbrev Afterwards {ℓ} :
    {A : Type 0} {S : Type 0} → (State S → Type ℓ) → Outcome (A × State S) → Type ℓ
Afterwards P (done (a, st)) = P st
Afterwards P undefined = Unit
Afterwards P out_of_fuel = Unit

bind-Afterwards {ℓ} :
    {A B : Type 0} {S : Type 0} (P : State S → Type ℓ) (x : Outcome (A × State S))
    (f : A × State S → Outcome (B × State S))
    → Afterwards P x
    → ((a : A) (st : State S) → P st → Afterwards P (f (a, st)))
    → Afterwards P (x >>= f)
bind-Afterwards P (done (a, st)) f p h = h a st p
bind-Afterwards P undefined f p h = tt
bind-Afterwards P out_of_fuel f p h = tt

module _ {S : Type 0} (syscall : Syscall → S → Answer × S)
    (scandirat : Bytes → S → Option (List Bytes) × S) (is_open : S → ℕ → Bool)
    (kernel : IsKernel syscall scandirat is_open) (base : ℕ → Bool) where
  abbrev Tidy : State S → Type 0
  Tidy = IsTidy is_open base

  -- The open descriptors are the same afterwards.
  abbrev Same : (S → Reply × S) → Type 0
  Same f = (w : S) (n : ℕ) → is_open (f w).1 n ≡ is_open w n

  abbrev Keeps : (State S → Served S) → Type 0
  Keeps g = (st : State S) → Tidy st → Afterwards Tidy (g st)

  wrap-Same :
      (f : Answer → Reply) (call : Syscall)
      → opens_or_closes call ≡ false
      → Same (wrap syscall scandirat f call)
  wrap-Same f call h w n = kernel.other call n w h

  within-Same :
      (a : Answer) (s w : S) (body : ℕ → S → Reply × S)
      → Opened is_open w a s
      → ((fd : ℕ) → Same (body fd))
      → (n : ℕ) → is_open (within syscall scandirat (a, s) body).1 n ≡ is_open w n
  within-Same (errno e) s w body same h n = same n
  within-Same (answer fd text) s w body (new, after) h n =
      let c = kernel.closed fd n (body fd s).1 in
      let b = h fd s n in let a = after n in ground (arith, a, b, c, new)

  with_fd-Same :
      (path : Bytes) (flags : ℕ) (body : ℕ → S → Reply × S)
      → ((fd : ℕ) → Same (body fd))
      → Same (with_fd syscall scandirat path flags body)
  with_fd-Same path flags body h w n =
      within-Same (syscall (openat path flags none) w).0 (syscall (openat path flags none) w).1 w
        body (kernel.openat-Opened path flags none w) h n

  lift-Keeps : (f : S → Reply × S) → Same f → Keeps (lift f)
  lift-Keeps f same st t = same-IsTidy is_open base st (f st.world).1 (same st.world) t

  declare_relative-Keeps :
      (path : Bytes) (f : Bytes → State S → Served S)
      → ((relative : Bytes) → Keeps (f relative))
      → Keeps (declare_relative path f)
  declare_relative-Keeps [] f h st t = t
  declare_relative-Keeps (c ∷ path) f h st t =
      elim (get_relative_path (c ∷ path))
        as (λ r. Afterwards Tidy (defined r >>= λ relative. f relative st)) [
          | none ↦ tt
          | some relative ↦ h relative st t
        ]

  use_object-Keeps :
      (o : Option FileHandle) (f : ℕ → State S → Served S)
      → ((fd : ℕ) → Keeps (f fd))
      → Keeps (use_object o f)
  use_object-Keeps none f h st t = tt
  use_object-Keeps (some none) f h st t = t
  use_object-Keeps (some (some fd)) f h st t = h fd st t

  use_filehandle-Keeps :
      (fh : Option ℕ) (f : ℕ → State S → Served S)
      → ((fd : ℕ) → Keeps (f fd))
      → Keeps (use_filehandle fh f)
  use_filehandle-Keeps none f h st t = t
  use_filehandle-Keeps (some i) f h st t = use_object-Keeps (st.handles i) f h st t

  -- A handler that calls the system once, on a path or on a handle.
  path-Keeps :
      (path : Bytes) (f : Bytes → S → Reply × S)
      → ((relative : Bytes) → Same (f relative))
      → Keeps (declare_relative path λ relative. lift (f relative))
  path-Keeps path f same =
      declare_relative-Keeps path (λ relative. lift (f relative))
        λ relative. lift-Keeps (f relative) (same relative)

  handle-Keeps :
      (fh : Option ℕ) (f : ℕ → S → Reply × S)
      → ((fd : ℕ) → Same (f fd))
      → Keeps (use_filehandle fh λ fd. lift (f fd))
  handle-Keeps fh f same =
      use_filehandle-Keeps fh (λ fd. lift (f fd)) λ fd. lift-Keeps (f fd) (same fd)

  paths-Keeps :
      (from to : Bytes) (f : Bytes → Bytes → S → Reply × S)
      → ((a b : Bytes) → Same (f a b))
      → Keeps (declare_relative from λ a. declare_relative to λ b. lift (f a b))
  paths-Keeps from to f same =
      declare_relative-Keeps from (λ a. declare_relative to λ b. lift (f a b))
        λ a. path-Keeps to (f a) (same a)

  release-object :
      (st : State S) (h : ℕ) (fh : FileHandle)
      → st.handles h ≡ some fh
      → Tidy st
      → Tidy (record st {
        world = (syscall (close fh) st.world).1;
        handles = update st.handles h none;
      })
  release-object st h (some fd) held t =
      release-IsTidy is_open base st (syscall (close (some fd)) st.world).1 h fd held
        (λ n. kernel.closed fd n st.world) t
  release-object st h none held t =
      drop_handle-IsTidy is_open base st (syscall (close none) st.world).1 h held
        (λ n. kernel.other (close none) n st.world refl) t

  release-Keeps : (fh : Option ℕ) → Keeps (fs_release syscall scandirat fh)
  unfolding fs_release Handler.release
  release-Keeps none st t = tt
  release-Keeps (some h) st t = elim (Option-cases (st.handles h)) [
    | inl gone ↦ rw gone tt
    | inr (fh, held) ↦ rw held (release-object st h fh held t)
  ]

  open-Keeps :
      (path : Bytes) (flags : ℕ) (mode : Option ℕ) (st : State S)
      → Tidy st
      → Tidy
          (keep_handle
            (
              opened (syscall (openat path flags mode) st.world).0,
              (syscall (openat path flags mode) st.world).1,
            )
            st).2
  open-Keeps path flags mode st t =
      keep_handle-IsTidy is_open base (syscall (openat path flags mode) st.world).0
        (syscall (openat path flags mode) st.world).1 st
        (kernel.openat-Opened path flags mode st.world) t

  fs_open-Keeps :
      (path : Bytes) (flags : ℕ) → Keeps (serve syscall scandirat (open_file path flags))
  unfolding serve Callbacks.fs_open Handler.open_path
  fs_open-Keeps [] flags st t = t
  fs_open-Keeps (c ∷ path) flags st t = elim (Option-cases (get_relative_path (c ∷ path))) [
    | inl e ↦ rw e tt
    | inr (relative, e) ↦ rw e (open-Keeps relative flags none st t)
  ]

  fs_create-Keeps :
      (path : Bytes) (mode flags : ℕ) → Keeps (serve syscall scandirat (create path mode flags))
  unfolding serve Callbacks.fs_create Handler.create
  fs_create-Keeps [] mode flags st t = t
  fs_create-Keeps (c ∷ path) mode flags st t = elim (Option-cases (get_relative_path (c ∷ path))) [
    | inl e ↦ rw e tt
    | inr (relative, e) ↦ rw e (open-Keeps relative flags (some mode) st t)
  ]

  fs_opendir-Keeps :
      (path : Bytes) (fh : Option Bytes) → Keeps (serve syscall scandirat (opendir path fh))
  unfolding serve Callbacks.fs_opendir
  fs_opendir-Keeps [] fh st t = t
  fs_opendir-Keeps (c ∷ path) fh st t = elim (Option-cases (get_relative_path (c ∷ path))) [
    | inl e ↦ rw e tt
    | inr (relative, e) ↦ rw e t
  ]

  sync-Same : (fd : ℕ) (isdatasync : Bool) → Same (Handler.sync syscall scandirat fd isdatasync)
  unfolding Handler.sync
  sync-Same fd true = wrap-Same errno_or_zero (fdatasync fd) refl
  sync-Same fd false = wrap-Same errno_or_zero (fsync fd) refl

  fallocate-Same :
      (fd mode offset size : ℕ) → Same (Handler.fallocate syscall scandirat fd mode offset size)
  unfolding Handler.fallocate
  fallocate-Same fd mode offset size w n = elim (Bool-cases (mode == 0)) [
    | inl e ↦ rw e (kernel.other (posix_fallocate fd offset size) n w refl)
    | inr e ↦ rw e refl
  ]

  fs_symlink-Keeps : (from to : Bytes) → Keeps (serve syscall scandirat (symlink from to))
  unfolding serve Callbacks.fs_symlink Handler.symlink
  fs_symlink-Keeps [] to =
      declare_relative-Keeps to (λ to_s st. done (refused enoent, st)) λ r st t. t
  fs_symlink-Keeps (c ∷ from) to =
      path-Keeps to (λ r. Handler.symlink syscall scandirat (c ∷ from) r)
        λ r. wrap-Same errno_or_zero (symlinkat (c ∷ from) r) refl

  -- The requests that are served by one handler on a path or a handle.
  serve-Keeps : (q : Request) → Keeps (serve syscall scandirat q)
  unfolding serve Callbacks.fs_chmod Callbacks.fs_chown Callbacks.fs_fallocate Callbacks.fs_fsync
      Callbacks.fs_getattr Callbacks.fs_getxattr Callbacks.fs_link Callbacks.fs_listxattr
      Callbacks.fs_mkdir Callbacks.fs_mknod Callbacks.fs_read Callbacks.fs_read_buf
      Callbacks.fs_readdir Callbacks.fs_readlink Callbacks.fs_removexattr Callbacks.fs_rename
      Callbacks.fs_rmdir Callbacks.fs_setxattr Callbacks.fs_statfs Callbacks.fs_truncate
      Callbacks.fs_unlink Callbacks.fs_utimens Callbacks.fs_write Handler.get_attr
      Handler.get_attr_handle Handler.read Handler.read_buf Handler.write Handler.unlink
      Handler.read_dir Handler.chmod Handler.chown Handler.truncate Handler.utimens Handler.mknod
      Handler.link Handler.statfs Handler.readlink Handler.mkdir Handler.rmdir Handler.setxattr
      Handler.getxattr Handler.listxattr Handler.removexattr Handler.rename
  serve-Keeps (chmod path mode) =
      path-Keeps path (λ r. Handler.chmod syscall scandirat r mode)
        λ r. wrap-Same errno_or_zero (fchmodat r mode) refl
  serve-Keeps (chown path uid gid) =
      path-Keeps path (λ r. Handler.chown syscall scandirat r uid gid)
        λ r. wrap-Same errno_or_zero (fchownat r uid gid) refl
  serve-Keeps (create path mode flags) = fs_create-Keeps path mode flags
  serve-Keeps (fallocate fh mode offset size) =
      handle-Keeps fh (λ fd. Handler.fallocate syscall scandirat fd mode offset size)
        λ fd. fallocate-Same fd mode offset size
  serve-Keeps (Request.fsync fh isdatasync) =
      handle-Keeps fh (λ fd. Handler.sync syscall scandirat fd isdatasync)
        λ fd. sync-Same fd isdatasync
  serve-Keeps (getattr path (some fh)) =
      handle-Keeps fh (λ fd. Handler.get_attr_handle syscall scandirat fd)
        λ fd. wrap-Same errno_or_zero (fstat fd) refl
  serve-Keeps (getattr path none) =
      path-Keeps path (λ r. Handler.get_attr syscall scandirat r)
        λ r. wrap-Same errno_or_zero (fstatat r) refl
  serve-Keeps (getxattr path name size) =
      path-Keeps path (λ r. Handler.getxattr syscall scandirat r name size)
        λ r.
          with_fd-Same r o_rdonly
            (λ fd. wrap syscall scandirat errno_or_result (fgetxattr fd name size))
            λ fd. wrap-Same errno_or_result (fgetxattr fd name size) refl
  serve-Keeps (link from to) =
      paths-Keeps from to (λ a b. Handler.link syscall scandirat a b)
        λ a b. wrap-Same errno_or_zero (linkat a b) refl
  serve-Keeps (listxattr path size) =
      path-Keeps path (λ r. Handler.listxattr syscall scandirat r size)
        λ r.
          with_fd-Same r o_rdonly
            (λ fd. wrap syscall scandirat errno_or_result (flistxattr fd size))
            λ fd. wrap-Same errno_or_result (flistxattr fd size) refl
  serve-Keeps (mkdir path mode) =
      path-Keeps path (λ r. Handler.mkdir syscall scandirat r mode)
        λ r. wrap-Same errno_or_zero (mkdirat r mode) refl
  serve-Keeps (mknod path mode rdev) =
      path-Keeps path (λ r. Handler.mknod syscall scandirat r mode rdev)
        λ r. wrap-Same errno_or_zero (mknodat r mode rdev) refl
  serve-Keeps (open_file path flags) = fs_open-Keeps path flags
  serve-Keeps (opendir path fh) = fs_opendir-Keeps path fh
  serve-Keeps (read fh size offset) =
      handle-Keeps fh (λ fd. Handler.read syscall scandirat fd size offset)
        λ fd. wrap-Same errno_or_result (pread fd size offset) refl
  serve-Keeps (read_buf fh size offset) =
      handle-Keeps fh (λ fd. Handler.read_buf syscall scandirat fd size offset) λ fd. λ s n. refl
  serve-Keeps (readdir none) = λ st t. t
  serve-Keeps (readdir (some relative)) = λ st t.
      same-IsTidy is_open base st (scandirat relative st.world).1
        (λ n. kernel.listed relative n st.world) t
  serve-Keeps (readlink path size) =
      path-Keeps path (λ r. Handler.readlink syscall scandirat r size)
        λ r. wrap-Same terminated (readlinkat r ((size + (2 ^ 64 - 1)) % 2 ^ 64)) refl
  serve-Keeps (release fh) = release-Keeps fh
  serve-Keeps (releasedir fh) = λ st t. t
  serve-Keeps (removexattr path name) =
      path-Keeps path (λ r. Handler.removexattr syscall scandirat r name)
        λ r.
          with_fd-Same r o_rdonly
            (λ fd. wrap syscall scandirat errno_or_zero (fremovexattr fd name))
            λ fd. wrap-Same errno_or_zero (fremovexattr fd name) refl
  serve-Keeps (rename from to flags) =
      paths-Keeps from to (λ a b. Handler.rename syscall scandirat a b flags)
        λ a b. wrap-Same errno_or_zero (renameat2 a b flags) refl
  serve-Keeps (rmdir path) =
      path-Keeps path (λ r. Handler.rmdir syscall scandirat r)
        λ r. wrap-Same errno_or_zero (unlinkat r at_removedir) refl
  serve-Keeps (setxattr path name value flags) =
      path-Keeps path (λ r. Handler.setxattr syscall scandirat r name value flags)
        λ r.
          with_fd-Same r o_rdonly
            (λ fd. wrap syscall scandirat errno_or_zero (fsetxattr fd name value flags))
            λ fd. wrap-Same errno_or_zero (fsetxattr fd name value flags) refl
  serve-Keeps statfs =
      lift-Keeps (Handler.statfs syscall scandirat) (wrap-Same errno_or_zero (fstatvfs) refl)
  serve-Keeps (symlink from to) = fs_symlink-Keeps from to
  serve-Keeps (truncate path size) =
      path-Keeps path (λ r. Handler.truncate syscall scandirat r size)
        λ r.
          with_fd-Same r o_wronly (λ fd. wrap syscall scandirat errno_or_zero (ftruncate fd size))
            λ fd. wrap-Same errno_or_zero (ftruncate fd size) refl
  serve-Keeps (unlink path) =
      path-Keeps path (λ r. Handler.unlink syscall scandirat r)
        λ r. wrap-Same errno_or_zero (unlinkat r 0) refl
  serve-Keeps (utimens path ts) =
      path-Keeps path (λ r. Handler.utimens syscall scandirat r ts)
        λ r. wrap-Same errno_or_zero (utimensat r ts) refl
  serve-Keeps (write fh buf offset) =
      handle-Keeps fh (λ fd. Handler.write syscall scandirat fd buf offset)
        λ fd. wrap-Same errno_or_result (pwrite fd buf offset) refl

  serve_all-Keeps :
      (qs : List Request) (st : State S)
      → Tidy st
      → Afterwards Tidy (serve_all syscall scandirat qs st)
  serve_all-Keeps [] st t = t
  serve_all-Keeps (q ∷ qs) st t =
      bind-Afterwards Tidy (serve syscall scandirat q st) _ (serve-Keeps q st t) λ r st' t'.
        bind-Afterwards Tidy (serve_all syscall scandirat qs st') _ (serve_all-Keeps qs st' t')
          λ rs st'' t''. t''

  -- Where the system calls treat descriptors as documented (`openat` returns one that was not open,
  -- `close` closes the one it is given, nothing else opens or closes any), and every live file handle
  -- holds an open descriptor of its own while all others are those that were open before, this is so
  -- again after any sequence of requests that meets no undefined behaviour, the failing ones
  -- included.
  pub serve_all-IsTidy :
      (qs : List Request) (replies : List Reply) (st st' : State S)
      → IsTidy is_open base st
      → serve_all syscall scandirat qs st ≡ done (replies, st')
      → IsTidy is_open base st'
  serve_all-IsTidy qs replies st st' t e = subst (Afterwards Tidy) e (serve_all-Keeps qs st t)
