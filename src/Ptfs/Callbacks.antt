-- ===== src/Ptfs/Callbacks.antt =====
-- The callbacks of ptfs.cc. A handle is what `fi->fh` holds, `none` for 0; of a directory it points to
-- the relative path.
use gitlstreefs.Base.{ℕ, suc, Bool, Option, none, some, List, [], ◌∷◌, Bytes}
use gitlstreefs.Base.Outcome.{Outcome, done, defined, ◌>>=◌}
use gitlstreefs.Paths.{get_relative_path}
use gitlstreefs.Container.{update}
use gitlstreefs.Ptfs.{
  Syscall, Answer, Reply, replied, refused, enoent, ebadf, FileHandle, State, Served, lift,
  declare_relative, use_filehandle,
}
use gitlstreefs.Ptfs.Handler

-- `GetFileHandle`, of a live object.
abbrev pub get_file_handle : {S : Type 0} → State S → Option ℕ → Option FileHandle
get_file_handle st none = none
get_file_handle st (some h) = st.handles h

-- The callback for a handler's new file handle: the result, `fi->fh` and the state.
abbrev pub keep_handle :
    {S : Type 0} → (Reply × Option FileHandle) × S → State S → Reply × Option ℕ × State S
keep_handle ((r, none), s) st = (refused ebadf, none, record st { world = s })
keep_handle ((r, some fh), s) st = (
  r,
  some st.next,
  record { world = s; handles = update st.handles st.next (some fh); next = suc st.next },
)

unfoldable pub fs_opendir : Bytes → Option Bytes → Outcome (Reply × Option Bytes)
fs_opendir [] fh = done (refused enoent, fh)
fs_opendir (c ∷ path) fh =
    defined (get_relative_path (c ∷ path)) >>= λ relative. done (replied 0 [], some relative)

unfoldable pub fs_releasedir : Option Bytes → Reply
fs_releasedir none = refused ebadf
fs_releasedir (some relative) = replied 0 []

module _ {S : Type 0} (syscall : Syscall → S → Answer × S)
    (scandirat : Bytes → S → Option (List Bytes) × S) where
  unfoldable pub fs_chmod : Bytes → ℕ → State S → Served S
  fs_chmod path mode =
      declare_relative path λ relative. lift (Handler.chmod syscall scandirat relative mode)

  unfoldable pub fs_chown : Bytes → ℕ → ℕ → State S → Served S
  fs_chown path uid gid =
      declare_relative path λ relative. lift (Handler.chown syscall scandirat relative uid gid)

  unfoldable pub fs_truncate : Bytes → ℕ → State S → Served S
  fs_truncate path size =
      declare_relative path λ relative. lift (Handler.truncate syscall scandirat relative size)

  unfoldable pub fs_utimens : Bytes → Bytes → State S → Served S
  fs_utimens path ts =
      declare_relative path λ relative. lift (Handler.utimens syscall scandirat relative ts)

  unfoldable pub fs_mknod : Bytes → ℕ → ℕ → State S → Served S
  fs_mknod path mode rdev =
      declare_relative path λ relative. lift (Handler.mknod syscall scandirat relative mode rdev)

  unfoldable pub fs_link : Bytes → Bytes → State S → Served S
  fs_link from to =
      declare_relative from
        λ from_s. declare_relative to λ to_s. lift (Handler.link syscall scandirat from_s to_s)

  unfoldable pub fs_statfs : State S → Served S
  fs_statfs = lift (Handler.statfs syscall scandirat)

  unfoldable pub fs_symlink : Bytes → Bytes → State S → Served S
  fs_symlink [] to = declare_relative to λ to_s st. done (refused enoent, st)
  fs_symlink (c ∷ from) to =
      declare_relative to λ to_s. lift (Handler.symlink syscall scandirat (c ∷ from) to_s)

  -- `none` is a null pointer `fi`.
  unfoldable pub fs_getattr : Bytes → Option (Option ℕ) → State S → Served S
  fs_getattr path (some fh) =
      use_filehandle fh λ fd. lift (Handler.get_attr_handle syscall scandirat fd)
  fs_getattr path none =
      declare_relative path λ relative. lift (Handler.get_attr syscall scandirat relative)

  unfoldable pub fs_readdir : Option Bytes → State S → Outcome ((Reply × List Bytes) × State S)
  fs_readdir none st = done ((refused enoent, []), st)
  fs_readdir (some relative) st = done (
    (Handler.read_dir syscall scandirat relative st.world).0,
    record st { world = (Handler.read_dir syscall scandirat relative st.world).1 },
  )

  unfoldable pub fs_open : Bytes → ℕ → State S → Outcome (Reply × Option ℕ × State S)
  fs_open [] flags st = done (refused enoent, none, st)
  fs_open (c ∷ path) flags st = defined (get_relative_path (c ∷ path)) >>= λ relative.
      done (keep_handle (Handler.open_path syscall scandirat relative flags st.world) st)

  unfoldable pub fs_create : Bytes → ℕ → ℕ → State S → Outcome (Reply × Option ℕ × State S)
  fs_create [] mode flags st = done (refused enoent, none, st)
  fs_create (c ∷ path) mode flags st = defined (get_relative_path (c ∷ path)) >>= λ relative.
      done (keep_handle (Handler.create syscall scandirat relative flags mode st.world) st)

  -- The object is deleted, with -1 as its descriptor.
  unfoldable pub fs_release : Option ℕ → State S → Served S
  fs_release fh st = defined (get_file_handle st fh) >>= λ handle. defined fh >>= λ h.
      lift (Handler.release syscall scandirat handle)
        (record st { handles = update st.handles h none })

  unfoldable pub fs_read : Option ℕ → ℕ → ℕ → State S → Served S
  fs_read fh size offset =
      use_filehandle fh λ fd. lift (Handler.read syscall scandirat fd size offset)

  unfoldable pub fs_read_buf : Option ℕ → ℕ → ℕ → State S → Served S
  fs_read_buf fh size offset =
      use_filehandle fh λ fd. lift (Handler.read_buf syscall scandirat fd size offset)

  unfoldable pub fs_write : Option ℕ → Bytes → ℕ → State S → Served S
  fs_write fh buf offset =
      use_filehandle fh λ fd. lift (Handler.write syscall scandirat fd buf offset)

  unfoldable pub fs_readlink : Bytes → ℕ → State S → Served S
  fs_readlink path size =
      declare_relative path λ relative. lift (Handler.readlink syscall scandirat relative size)

  unfoldable pub fs_mkdir : Bytes → ℕ → State S → Served S
  fs_mkdir path mode =
      declare_relative path λ relative. lift (Handler.mkdir syscall scandirat relative mode)

  unfoldable pub fs_rmdir : Bytes → State S → Served S
  fs_rmdir path = declare_relative path λ relative. lift (Handler.rmdir syscall scandirat relative)

  unfoldable pub fs_unlink : Bytes → State S → Served S
  fs_unlink path =
      declare_relative path λ relative. lift (Handler.unlink syscall scandirat relative)

  unfoldable pub fs_fsync : Option ℕ → Bool → State S → Served S
  fs_fsync fh isdatasync =
      use_filehandle fh λ fd. lift (Handler.sync syscall scandirat fd isdatasync)

  unfoldable pub fs_fallocate : Option ℕ → ℕ → ℕ → ℕ → State S → Served S
  fs_fallocate fh mode offset size =
      use_filehandle fh λ fd. lift (Handler.fallocate syscall scandirat fd mode offset size)

  unfoldable pub fs_setxattr : Bytes → Bytes → Bytes → ℕ → State S → Served S
  fs_setxattr path name value flags =
      declare_relative path
        λ relative. lift (Handler.setxattr syscall scandirat relative name value flags)

  unfoldable pub fs_getxattr : Bytes → Bytes → ℕ → State S → Served S
  fs_getxattr path name size =
      declare_relative path λ relative. lift (Handler.getxattr syscall scandirat relative name size)

  unfoldable pub fs_listxattr : Bytes → ℕ → State S → Served S
  fs_listxattr path size =
      declare_relative path λ relative. lift (Handler.listxattr syscall scandirat relative size)

  unfoldable pub fs_removexattr : Bytes → Bytes → State S → Served S
  fs_removexattr path name =
      declare_relative path λ relative. lift (Handler.removexattr syscall scandirat relative name)

  unfoldable pub fs_rename : Bytes → Bytes → ℕ → State S → Served S
  fs_rename from to rename_flags = declare_relative from λ from_s.
      declare_relative to λ to_s. lift (Handler.rename syscall scandirat from_s to_s rename_flags)
