-- ===== src/Fuse.antt =====
-- What the file systems have in common: error numbers, the stat fields that they fill, the virtual
-- methods of `File` in directory_container.h with those of `Directory`, and the copying of a part of
-- a file to the caller's buffer. User and group ids and time stamps are left out.
pub mod Window
pub mod Adapter
pub mod Callbacks
pub mod Listing
mod Tests
use Prim.Native.Nat.{bit_or}
use gitlstreefs.Base.{
  ℕ, ◌+◌, ◌-◌, Option, none, some, [], ◌∷◌, ◌++◌, ltb, if◌then◌else◌, Bytes, take, drop, length,
}
use gitlstreefs.Base.Outcome.{Outcome, done, undefined, ◌>>=◌}
use gitlstreefs.Container.{leaf, directory, DirectoryContainer, get, update}

-- The errors that the code returns, as -ENOENT and so on.
pub data Errno : Type 0 where
  enoent ebadf eio einval enosys eopnotsupp eperm : Errno

pub data Result {ℓ} (A : Type ℓ) : Type ℓ where
  ok : A → Result A
  error : Errno → Result A

pub record Stat : Type 0 where
  pub mode : ℕ
  pub nlink : ℕ
  pub size : ℕ

-- After `memset`.
abbrev pub no_stat : Stat
no_stat = record { mode = 0; nlink = 0; size = 0 }

abbrev pub s_ifdir : ℕ
s_ifdir = 0x4000

abbrev pub s_ifreg : ℕ
s_ifreg = 0x8000

abbrev pub s_iflnk : ℕ
s_iflnk = 0xa000

-- The virtual methods of a concrete file `F`. `W` is what the methods share: global variables, and
-- the processes and files outside.
pub record FileClass {ℓ} (F W : Type ℓ) : Type ℓ where
  pub getattr : F → W → Stat → Outcome (Stat × F × W)
  pub open_file : F → W → Outcome (Result (Unit {0}) × F × W)
  pub read : F → W → ℕ → ℕ → Outcome (Result Bytes × F × W)
  pub readlink : F → W → ℕ → Outcome (Result Bytes × F × W)
  pub release : F → W → Outcome (Result (Unit {0}) × F × W)

-- A mounted file system.
pub record Mount {ℓ} (F W : Type ℓ) : Type ℓ where
  pub container : DirectoryContainer F
  pub world : W

-- A virtual call on the object `i`; a directory answers `dir`.
unfoldable pub call {ℓ κ} :
    {F W : Type ℓ} {A : Type κ}
    → Mount F W
    → ℕ
    → A
    → (F → W → Outcome (A × F × W))
    → Outcome (A × Mount F W)
call m i dir method = elim (m.container.objects i) [
  | none ↦ undefined
  | some (directory es) ↦ done (dir, m)
  | some (leaf f) ↦ method f m.world >>= λ (a, f', w'). done (
    a,
    record {
      container = record m.container { objects = update m.container.objects i (some (leaf f')) };
      world = w';
    },
  )
]

-- `Directory::Getattr`.
unfoldable pub directory_getattr : Stat → Stat
directory_getattr stbuf = record stbuf { mode = bit_or s_ifdir 0x1ed; nlink = 2 }

module _ {ℓ} {F W : Type ℓ} (class : FileClass F W) where
  -- `Getattr` through a pointer to `File`; it returns 0.
  unfoldable pub file_getattr : Mount F W → ℕ → Stat → Outcome (Stat × Mount F W)
  file_getattr m i stbuf = call m i (directory_getattr stbuf) λ f w. class.getattr f w stbuf

  unfoldable pub file_open : Mount F W → ℕ → Outcome (Result (Unit {0}) × Mount F W)
  file_open m i = call m i (error einval) class.open_file

  unfoldable pub file_read : Mount F W → ℕ → ℕ → ℕ → Outcome (Result Bytes × Mount F W)
  file_read m i size offset = call m i (error einval) λ f w. class.read f w size offset

  unfoldable pub file_readlink : Mount F W → ℕ → ℕ → Outcome (Result Bytes × Mount F W)
  file_readlink m i size = call m i (error einval) λ f w. class.readlink f w size

  unfoldable pub file_release : Mount F W → ℕ → Outcome (Result (Unit {0}) × Mount F W)
  file_release m i = call m i (error einval) class.release

  -- `DirectoryContainer::Getattr`.
  unfoldable pub container_getattr : Mount F W → Bytes → Outcome (Result Stat × Mount F W)
  container_getattr m path = elim (get m.container path) [
    | none ↦ done (error enoent, m)
    | some i ↦ file_getattr m i no_stat >>= λ (stbuf, m'). done (ok stbuf, m')
  ]
