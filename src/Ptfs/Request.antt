-- ===== src/Ptfs/Request.antt =====
-- The requests that reach the callbacks, as `FillFuseOperationsInternal` registers them.
use gitlstreefs.Base.{ℕ, Bool, Option, List, [], ◌∷◌, Bytes}
use gitlstreefs.Base.Outcome.{Outcome, done, ◌>>=◌}
use gitlstreefs.Ptfs.{Syscall, Answer, Reply, State, Served}
use gitlstreefs.Ptfs.Callbacks.{
  fs_opendir, fs_releasedir, fs_chmod, fs_chown, fs_truncate, fs_utimens, fs_mknod, fs_link,
  fs_statfs, fs_symlink, fs_getattr, fs_readdir, fs_open, fs_create, fs_release, fs_read,
  fs_read_buf, fs_write, fs_readlink, fs_mkdir, fs_rmdir, fs_unlink, fs_fsync, fs_fallocate,
  fs_setxattr, fs_getxattr, fs_listxattr, fs_removexattr, fs_rename,
}

pub data Request : Type 0 where
  chmod : Bytes → ℕ → Request
  chown : Bytes → ℕ → ℕ → Request
  create : Bytes → ℕ → ℕ → Request
  fallocate : Option ℕ → ℕ → ℕ → ℕ → Request
  fsync : Option ℕ → Bool → Request
  getattr : Bytes → Option (Option ℕ) → Request
  getxattr : Bytes → Bytes → ℕ → Request
  link : Bytes → Bytes → Request
  listxattr : Bytes → ℕ → Request
  mkdir : Bytes → ℕ → Request
  mknod : Bytes → ℕ → ℕ → Request
  open_file : Bytes → ℕ → Request
  opendir : Bytes → Option Bytes → Request
  read : Option ℕ → ℕ → ℕ → Request
  read_buf : Option ℕ → ℕ → ℕ → Request
  readdir : Option Bytes → Request
  readlink : Bytes → ℕ → Request
  release : Option ℕ → Request
  releasedir : Option Bytes → Request
  removexattr : Bytes → Bytes → Request
  rename : Bytes → Bytes → ℕ → Request
  rmdir : Bytes → Request
  setxattr : Bytes → Bytes → Bytes → ℕ → Request
  statfs : Request
  symlink : Bytes → Bytes → Request
  truncate : Bytes → ℕ → Request
  unlink : Bytes → Request
  utimens : Bytes → Bytes → Request
  write : Option ℕ → Bytes → ℕ → Request

-- The result alone; the handle, the directory's path and the names go to the caller too.
abbrev pub with_handle : {S : Type 0} → Outcome (Reply × Option ℕ × State S) → Served S
with_handle x = x >>= λ (r, fh, st). done (r, st)

abbrev pub with_names : {S : Type 0} → Outcome ((Reply × List Bytes) × State S) → Served S
with_names x = x >>= λ (r, st). done (r.0, st)

abbrev pub with_path : {S : Type 0} → Outcome (Reply × Option Bytes) → State S → Served S
with_path x st = x >>= λ (r, fh). done (r, st)

module _ {S : Type 0} (syscall : Syscall → S → Answer × S)
    (scandirat : Bytes → S → Option (List Bytes) × S) where
  unfoldable pub serve : Request → State S → Served S
  serve (chmod path mode) st = fs_chmod syscall scandirat path mode st
  serve (chown path uid gid) st = fs_chown syscall scandirat path uid gid st
  serve (create path mode flags) st = with_handle (fs_create syscall scandirat path mode flags st)
  serve (fallocate fh mode offset size) st = fs_fallocate syscall scandirat fh mode offset size st
  serve (fsync fh isdatasync) st = fs_fsync syscall scandirat fh isdatasync st
  serve (getattr path fi) st = fs_getattr syscall scandirat path fi st
  serve (getxattr path name size) st = fs_getxattr syscall scandirat path name size st
  serve (link from to) st = fs_link syscall scandirat from to st
  serve (listxattr path size) st = fs_listxattr syscall scandirat path size st
  serve (mkdir path mode) st = fs_mkdir syscall scandirat path mode st
  serve (mknod path mode rdev) st = fs_mknod syscall scandirat path mode rdev st
  serve (open_file path flags) st = with_handle (fs_open syscall scandirat path flags st)
  serve (opendir path fh) st = with_path (fs_opendir path fh) st
  serve (read fh size offset) st = fs_read syscall scandirat fh size offset st
  serve (read_buf fh size offset) st = fs_read_buf syscall scandirat fh size offset st
  serve (readdir fh) st = with_names (fs_readdir syscall scandirat fh st)
  serve (readlink path size) st = fs_readlink syscall scandirat path size st
  serve (release fh) st = fs_release syscall scandirat fh st
  serve (releasedir fh) st = done (fs_releasedir fh, st)
  serve (removexattr path name) st = fs_removexattr syscall scandirat path name st
  serve (rename from to flags) st = fs_rename syscall scandirat from to flags st
  serve (rmdir path) st = fs_rmdir syscall scandirat path st
  serve (setxattr path name value flags) st = fs_setxattr syscall scandirat path name value flags st
  serve statfs st = fs_statfs syscall scandirat st
  serve (symlink from to) st = fs_symlink syscall scandirat from to st
  serve (truncate path size) st = fs_truncate syscall scandirat path size st
  serve (unlink path) st = fs_unlink syscall scandirat path st
  serve (utimens path ts) st = fs_utimens syscall scandirat path ts st
  serve (write fh buf offset) st = fs_write syscall scandirat fh buf offset st

  -- Requests one after the other, with the replies.
  abbrev pub serve_all : List Request → State S → Outcome (List Reply × State S)
  serve_all [] st = done ([], st)
  serve_all (q ∷ qs) st =
      serve q st >>= λ (r, st'). serve_all qs st' >>= λ (rs, st''). done (r ∷ rs, st'')
