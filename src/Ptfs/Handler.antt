-- ===== src/Ptfs/Handler.antt =====
-- ptfs_handler.cc.
use gitlstreefs.Base.{
  ℕ, ◌+◌, ◌-◌, ◌%◌, ◌^◌, ◌==◌, if◌then◌else◌, Bool, not, Option, none, some, List, [], ◌∷◌, ◌++◌,
  Bytes,
}
use gitlstreefs.Ptfs.{
  Syscall, openat, close, fstatat, fstat, pread, pwrite, unlinkat, fchmodat, fchownat, ftruncate,
  utimensat, mknodat, linkat, fstatvfs, symlinkat, readlinkat, mkdirat, fsync, fdatasync,
  posix_fallocate, fsetxattr, fgetxattr, flistxattr, fremovexattr, renameat2, Answer, answer, errno,
  Reply, replied, refused, buffered, enoent, eopnotsupp, FileHandle,
}

-- `WRAP_ERRNO` and `WRAP_ERRNO_OR_RESULT`.
abbrev pub errno_or_zero : Answer → Reply
errno_or_zero (answer n text) = replied 0 text
errno_or_zero (errno e) = refused e

abbrev pub errno_or_result : Answer → Reply
errno_or_result (answer n text) = replied n text
errno_or_result (errno e) = refused e

-- The zero behind the text of a link.
abbrev pub terminated : Answer → Reply
terminated (answer n text) = replied 0 (text ++ 0 ∷ [])
terminated (errno e) = refused e

-- The error number that `posix_fallocate` returns, negated.
abbrev pub negated : Answer → Reply
negated (answer n text) = if n == 0 then replied 0 text else refused n
negated (errno e) = replied 1 []

-- What `Open` and `Create` return, with the file handle.
abbrev pub opened : Answer → Reply × Option FileHandle
opened (answer fd text) = (replied 0 [], some (some fd))
opened (errno e) = (refused enoent, none)

abbrev pub o_rdonly : ℕ
o_rdonly = 0

abbrev pub o_wronly : ℕ
o_wronly = 1

abbrev pub at_removedir : ℕ
at_removedir = 0x200

module _ {S : Type 0} (syscall : Syscall → S → Answer × S)
    (scandirat : Bytes → S → Option (List Bytes) × S) where
  abbrev pub wrap : (Answer → Reply) → Syscall → S → Reply × S
  wrap f call s = (f (syscall call s).0, (syscall call s).1)

  -- `WITH_FD`: the descriptor is closed when the body is left.
  abbrev pub within : Answer × S → (ℕ → S → Reply × S) → Reply × S
  within (answer fd text, s) body = ((body fd s).0, (syscall (close (some fd)) (body fd s).1).1)
  within (errno e, s) body = (refused e, s)

  abbrev pub with_fd : Bytes → ℕ → (ℕ → S → Reply × S) → S → Reply × S
  with_fd path flags body s = within (syscall (openat path flags none) s) body

  unfoldable pub get_attr : Bytes → S → Reply × S
  get_attr path = wrap errno_or_zero (fstatat path)

  unfoldable pub get_attr_handle : ℕ → S → Reply × S
  get_attr_handle fd = wrap errno_or_zero (fstat fd)

  unfoldable pub read : ℕ → ℕ → ℕ → S → Reply × S
  read fd size offset = wrap errno_or_result (pread fd size offset)

  unfoldable pub read_buf : ℕ → ℕ → ℕ → S → Reply × S
  read_buf fd size offset s = (buffered fd size offset, s)

  unfoldable pub write : ℕ → Bytes → ℕ → S → Reply × S
  write fd buf offset = wrap errno_or_result (pwrite fd buf offset)

  unfoldable pub open_path : Bytes → ℕ → S → (Reply × Option FileHandle) × S
  open_path path access_flags s = (
    opened (syscall (openat path access_flags none) s).0,
    (syscall (openat path access_flags none) s).1,
  )

  unfoldable pub create : Bytes → ℕ → ℕ → S → (Reply × Option FileHandle) × S
  create path access_flags mode s = (
    opened (syscall (openat path access_flags (some mode)) s).0,
    (syscall (openat path access_flags (some mode)) s).1,
  )

  -- The handle holds -1 afterwards.
  unfoldable pub release : FileHandle → S → Reply × S
  release fh = wrap errno_or_zero (close fh)

  unfoldable pub unlink : Bytes → S → Reply × S
  unlink path = wrap errno_or_zero (unlinkat path 0)

  -- The result, with what `filler` is given.
  unfoldable pub read_dir : Bytes → S → (Reply × List Bytes) × S
  read_dir path s = (
    elim (scandirat path s).0 [ none ↦ (refused enoent, []) | some names ↦ (replied 0 [], names) ],
    (scandirat path s).1,
  )

  unfoldable pub chmod : Bytes → ℕ → S → Reply × S
  chmod path mode = wrap errno_or_zero (fchmodat path mode)

  unfoldable pub chown : Bytes → ℕ → ℕ → S → Reply × S
  chown path uid gid = wrap errno_or_zero (fchownat path uid gid)

  unfoldable pub truncate : Bytes → ℕ → S → Reply × S
  truncate path size = with_fd path o_wronly λ fd. wrap errno_or_zero (ftruncate fd size)

  unfoldable pub utimens : Bytes → Bytes → S → Reply × S
  utimens path ts = wrap errno_or_zero (utimensat path ts)

  unfoldable pub mknod : Bytes → ℕ → ℕ → S → Reply × S
  mknod path mode rdev = wrap errno_or_zero (mknodat path mode rdev)

  unfoldable pub link : Bytes → Bytes → S → Reply × S
  link from to = wrap errno_or_zero (linkat from to)

  unfoldable pub statfs : S → Reply × S
  statfs = wrap errno_or_zero fstatvfs

  unfoldable pub symlink : Bytes → Bytes → S → Reply × S
  symlink from to = wrap errno_or_zero (symlinkat from to)

  -- `size - 1` of a `size_t`.
  unfoldable pub readlink : Bytes → ℕ → S → Reply × S
  readlink path size = wrap terminated (readlinkat path ((size + (2 ^ 64 - 1)) % 2 ^ 64))

  unfoldable pub mkdir : Bytes → ℕ → S → Reply × S
  mkdir path mode = wrap errno_or_zero (mkdirat path mode)

  unfoldable pub rmdir : Bytes → S → Reply × S
  rmdir path = wrap errno_or_zero (unlinkat path at_removedir)

  unfoldable pub sync : ℕ → Bool → S → Reply × S
  sync fd isdatasync = wrap errno_or_zero (if isdatasync then fdatasync fd else fsync fd)

  unfoldable pub fallocate : ℕ → ℕ → ℕ → ℕ → S → Reply × S
  fallocate fd mode offset size s =
      if not (mode == 0)
      then (refused eopnotsupp, s)
      else wrap negated (posix_fallocate fd offset size) s

  unfoldable pub setxattr : Bytes → Bytes → Bytes → ℕ → S → Reply × S
  setxattr path name value flags =
      with_fd path o_rdonly λ fd. wrap errno_or_zero (fsetxattr fd name value flags)

  unfoldable pub getxattr : Bytes → Bytes → ℕ → S → Reply × S
  getxattr path name size =
      with_fd path o_rdonly λ fd. wrap errno_or_result (fgetxattr fd name size)

  unfoldable pub listxattr : Bytes → ℕ → S → Reply × S
  listxattr path size = with_fd path o_rdonly λ fd. wrap errno_or_result (flistxattr fd size)

  unfoldable pub removexattr : Bytes → Bytes → S → Reply × S
  removexattr path name = with_fd path o_rdonly λ fd. wrap errno_or_zero (fremovexattr fd name)

  unfoldable pub rename : Bytes → Bytes → ℕ → S → Reply × S
  rename from to rename_flags = wrap errno_or_zero (renameat2 from to rename_flags)
