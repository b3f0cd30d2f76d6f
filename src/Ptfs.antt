-- ===== src/Ptfs.antt =====
-- ptfs.h, ptfs.cc and ptfs_handler.cc: the file system that passes every call on to a directory. The
-- system calls are parameters over what lies outside; every path is relative to `premount_dirfd_`.
-- What a call writes to a buffer, the fields of `stat` among it, is a list of bytes. Numbers that a
-- handler only hands on are not looked at.
pub mod Handler
pub mod Callbacks
pub mod Request
pub mod Tidy
mod Tests
use gitlstreefs.Base.{ℕ, Option, none, some, [], ◌∷◌, Bytes}
use gitlstreefs.Base.Outcome.{Outcome, done, undefined, defined, ◌>>=◌}
use gitlstreefs.Paths.{get_relative_path}

-- The system calls; a descriptor `none` is -1.
pub data Syscall : Type 0 where
  openat : Bytes → ℕ → Option ℕ → Syscall
  close : Option ℕ → Syscall
  fstatat : Bytes → Syscall
  fstat : ℕ → Syscall
  pread : ℕ → ℕ → ℕ → Syscall
  pwrite : ℕ → Bytes → ℕ → Syscall
  unlinkat : Bytes → ℕ → Syscall
  fchmodat : Bytes → ℕ → Syscall
  fchownat : Bytes → ℕ → ℕ → Syscall
  ftruncate : ℕ → ℕ → Syscall
  utimensat : Bytes → Bytes → Syscall
  mknodat : Bytes → ℕ → ℕ → Syscall
  linkat : Bytes → Bytes → Syscall
  fstatvfs : Syscall
  symlinkat : Bytes → Bytes → Syscall
  readlinkat : Bytes → ℕ → Syscall
  mkdirat : Bytes → ℕ → Syscall
  fsync fdatasync : ℕ → Syscall
  posix_fallocate : ℕ → ℕ → ℕ → Syscall
  fsetxattr : ℕ → Bytes → Bytes → ℕ → Syscall
  fgetxattr : ℕ → Bytes → ℕ → Syscall
  flistxattr : ℕ → ℕ → Syscall
  fremovexattr : ℕ → Bytes → Syscall
  renameat2 : Bytes → Bytes → ℕ → Syscall

-- What a system call returns, with what it writes to the caller's buffer; `errno` is a result of -1.
pub data Answer : Type 0 where
  answer : ℕ → Bytes → Answer
  errno : ℕ → Answer

-- What a callback returns: a number that is not negative, with what it writes; an error as a
-- negative one; or 0 with a buffer that refers to a descriptor, with size and position.
pub data Reply : Type 0 where
  replied : ℕ → Bytes → Reply
  refused : ℕ → Reply
  buffered : ℕ → ℕ → ℕ → Reply

abbrev pub enoent : ℕ
enoent = 2

abbrev pub ebadf : ℕ
ebadf = 9

abbrev pub eopnotsupp : ℕ
eopnotsupp = 95

-- `FileHandle`: the descriptor, `none` for -1. `handles` are the live objects.
abbrev pub FileHandle : Type 0
FileHandle = Option ℕ

pub record State (S : Type 0) : Type 0 where
  pub world : S
  pub handles : ℕ → Option FileHandle
  pub next : ℕ

abbrev pub Served : Type 0 → Type 0
Served S = Outcome (Reply × State S)

-- A handler that does not touch the handles.
abbrev pub lift : {S : Type 0} → (S → Reply × S) → State S → Served S
lift f st = done ((f st.world).0, record st { world = (f st.world).1 })

-- `DECLARE_RELATIVE`.
abbrev pub declare_relative :
    {S : Type 0} → Bytes → (Bytes → State S → Served S) → State S → Served S
declare_relative [] f st = done (refused enoent, st)
declare_relative (c ∷ path) f st =
    defined (get_relative_path (c ∷ path)) >>= λ relative. f relative st

-- `USE_FILEHANDLE`; `none` is the null pointer.
abbrev pub use_object :
    {S : Type 0} → Option FileHandle → (ℕ → State S → Served S) → State S → Served S
use_object none f st = undefined
use_object (some none) f st = done (refused ebadf, st)
use_object (some (some fd)) f st = f fd st

abbrev pub use_filehandle : {S : Type 0} → Option ℕ → (ℕ → State S → Served S) → State S → Served S
use_filehandle none f st = done (refused ebadf, st)
use_filehandle (some h) f st = use_object (st.handles h) f st
