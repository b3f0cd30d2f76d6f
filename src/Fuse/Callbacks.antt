-- ===== src/Fuse/Callbacks.antt =====
-- The callbacks that ninjafs.cc, cpiofs.cc and ext2.cc each have a copy of, over the files of each.
-- A handle is what `fi->fh` holds, `none` for 0.
use gitlstreefs.Base.{ℕ, Option, none, some, [], ◌∷◌, Bytes}
use gitlstreefs.Base.Outcome.{Outcome, done, ◌>>=◌}
use gitlstreefs.Container.{get}
use gitlstreefs.Fuse.{enoent, Result, ok, error, FileClass, Mount, file_open, file_readlink}
use gitlstreefs.Fuse.Adapter.{get_directory}

module _ {ℓ} {F W : Type ℓ} (class : FileClass F W) where
  unfoldable pub open_directory :
      Mount F W → Bytes → Option ℕ → Outcome (Result (Unit {0}) × Option ℕ)
  open_directory m [] fh = done (error enoent, fh)
  open_directory m (c ∷ path) fh = get_directory m.container (c ∷ path) >>= λ d. done (ok tt, d)

  unfoldable pub open_path :
      Mount F W → Bytes → Option ℕ → Outcome (Result (Unit {0}) × Option ℕ × Mount F W)
  open_path m [] fh = done (error enoent, fh, m)
  open_path m (c ∷ path) fh = elim (get m.container (c ∷ path)) [
    | none ↦ done (error enoent, fh, m)
    | some i ↦ file_open class m i >>= λ (r, m'). done (r, some i, m')
  ]

  unfoldable pub readlink_path : Mount F W → Bytes → ℕ → Outcome (Result Bytes × Mount F W)
  readlink_path m [] size = done (error enoent, m)
  readlink_path m (c ∷ path) size = elim (get m.container (c ∷ path)) [
    | none ↦ done (error enoent, m)
    | some i ↦ file_readlink class m i size
  ]
