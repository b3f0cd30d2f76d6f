-- ===== src/Fuse/Adapter.antt =====
-- git_adapter.cc: the callbacks of gitlstree and githubfs. A handle is what `fi->fh` holds, `none` for
-- 0; `fi` itself is optional in `fs_getattr`. A null path is `none`.
use gitlstreefs.Base.{ℕ, not, Option, none, some, List, [], ◌∷◌, map, if◌then◌else◌, Bytes, codes}
use gitlstreefs.Base.Outcome.{Outcome, done, undefined, defined, ◌>>=◌}
use gitlstreefs.Paths.{is_absolute}
use gitlstreefs.Container.{directory, leaf, DirectoryContainer, get, entries_of}
use gitlstreefs.Fuse.{
  enoent, ebadf, Result, ok, error, Stat, FileClass, Mount, file_getattr, file_open, file_read,
  file_readlink, file_release, container_getattr,
}

-- `dynamic_cast<Directory*>(fs->mutable_get(path))`.
unfoldable pub get_directory {ℓ} : {F : Type ℓ} → DirectoryContainer F → Bytes → Outcome (Option ℕ)
get_directory c path = elim (get c path) [
  | none ↦ done none
  | some i ↦ elim (c.objects i) [
    | none ↦ undefined
    | some (leaf f) ↦ done none
    | some (directory es) ↦ done (some i)
  ]
]

-- What the calls of `filler` add for a directory.
unfoldable pub fill_names {ℓ} : {F : Type ℓ} → DirectoryContainer F → ℕ → Outcome (List Bytes)
fill_names c d = defined (entries_of c d) >>= λ es.
    done (codes "." ∷ codes ".." ∷ map (λ (e : Bytes × ℕ). e.0) es)

unfoldable pub fs_releasedir : Option ℕ → Result (Unit {0})
fs_releasedir none = error ebadf
fs_releasedir (some d) = ok tt

unfoldable pub fs_readdir {ℓ} :
    {F : Type ℓ} → DirectoryContainer F → Option ℕ → Outcome (Result (Unit {0}) × List Bytes)
fs_readdir c none = done (error enoent, codes "." ∷ codes ".." ∷ [])
fs_readdir c (some d) = fill_names c d >>= λ names. done (ok tt, names)

module _ {ℓ} {F W : Type ℓ} (class : FileClass F W) where
  unfoldable pub fs_getattr :
      Mount F W → Bytes → Option (Option ℕ) → Stat → Outcome (Result Stat × Mount F W)
  fs_getattr m path none stbuf = container_getattr class m path
  fs_getattr m path (some fh) stbuf =
      defined fh >>= λ i. file_getattr class m i stbuf >>= λ (st, m'). done (ok st, m')

  -- The result and the handle.
  unfoldable pub fs_opendir :
      Mount F W → Option Bytes → Option ℕ → Outcome (Result (Unit {0}) × Option ℕ)
  fs_opendir m none fh = done (error enoent, fh)
  fs_opendir m (some path) fh =
      if not (is_absolute path)
      then done (error enoent, fh)
      else get_directory m.container path >>= λ d.
          done (elim d [ none ↦ (error enoent, fh) | some i ↦ (ok tt, some i) ])

  -- What `Open` returns is not looked at.
  unfoldable pub fs_open :
      Mount F W → Option Bytes → Option ℕ → Outcome (Result (Unit {0}) × Option ℕ × Mount F W)
  fs_open m none fh = done (error enoent, fh, m)
  fs_open m (some path) fh =
      if not (is_absolute path) then done (error enoent, fh, m) else elim (get m.container path) [
        | none ↦ done (error enoent, fh, m)
        | some i ↦ file_open class m i >>= λ (r, m'). done (ok tt, some i, m')
      ]

  unfoldable pub fs_read : Mount F W → Option ℕ → ℕ → ℕ → Outcome (Result Bytes × Mount F W)
  fs_read m none size offset = done (error enoent, m)
  fs_read m (some i) size offset = file_read class m i size offset

  -- The pointer is used without a test.
  unfoldable pub fs_readlink : Mount F W → Option Bytes → ℕ → Outcome (Result Bytes × Mount F W)
  fs_readlink m none size = done (error enoent, m)
  fs_readlink m (some path) size =
      if not (is_absolute path)
      then done (error enoent, m)
      else defined (get m.container path) >>= λ i. file_readlink class m i size

  unfoldable pub fs_release : Mount F W → Option ℕ → Outcome (Result (Unit {0}) × Mount F W)
  fs_release m none = done (error enoent, m)
  fs_release m (some i) = file_release class m i
