-- ===== src/Container.antt =====
-- directory_container.h and directory_container.cc: the tree of `File` objects and its index by
-- full path. Objects live on a heap and are named by numbers; the container's root directory is 0.
-- `none` stands for undefined behaviour: a cast of a pointer to the wrong class, or the use of an
-- object that was freed. `F` is the type of the concrete files.
pub mod Names
pub mod Walk
pub mod Attach
pub mod Create
pub mod Add
pub mod Listing
pub mod Example
mod Tests
use gitlstreefs.Base.{
  ℕ, zero, suc, Bool, true, false, Option, none, some, [], ◌∷◌, ◌==◌, if◌then◌else◌, Bytes,
  bytes_eq, length, Map, lookup, insert,
}
use gitlstreefs.Paths.{base_name, dir_name}

pub data Object {ℓ} (F : Type ℓ) : Type ℓ where
  leaf : F → Object F
  directory : Map ℕ → Object F

pub record DirectoryContainer {ℓ} (F : Type ℓ) : Type ℓ where
  pub objects : ℕ → Option (Object F)
  pub next : ℕ
  pub files : Map ℕ

abbrev pub update {ℓ} : {A : Type ℓ} → (ℕ → A) → ℕ → A → ℕ → A
update f i a j = if i == j then a else f j

infixl 5 ◌>>=◌
abbrev pub ◌>>=◌ {ℓ κ} : {A : Type ℓ} {B : Type κ} → Option A → (A → Option B) → Option B
none >>= f = none
some a >>= f = f a

module _ {ℓ} {F : Type ℓ} where
  -- The constructor: the index holds the root under "/".
  abbrev pub empty_container : DirectoryContainer F
  empty_container = record {
    objects = λ i. if i == 0 then some (directory []) else none;
    next = 1;
    files = (b'/' ∷ [], 0) ∷ [];
  }

  -- `make_unique<T>(...)`.
  abbrev pub alloc : DirectoryContainer F → Object F → DirectoryContainer F
  alloc c o = record c { objects = update c.objects c.next (some o); next = suc c.next }

  -- Both `get` and `mutable_get`; `none` is the null pointer.
  abbrev pub get : DirectoryContainer F → Bytes → Option ℕ
  get c path = lookup path c.files

  -- `dynamic_cast<Directory*>` of what a live object is.
  abbrev pub as_directory : Object F → Option (Map ℕ)
  as_directory (leaf f) = none
  as_directory (directory es) = some es

  -- A dereferenced directory pointer that was cast without a test.
  abbrev pub entries_of : DirectoryContainer F → ℕ → Option (Map ℕ)
  entries_of c i = c.objects i >>= as_directory

  pub is_directory : DirectoryContainer F → Bytes → Option Bool
  is_directory c path = elim (get c path) [
    | none ↦ some false
    | some i ↦ elim (c.objects i) [
      | none ↦ none
      | some (leaf f) ↦ some false
      | some (directory es) ↦ some true
    ]
  ]

  -- The destructors run down the tree that an object owns. Fuel bounds the depth.
  destroy_entries :
      (DirectoryContainer F → ℕ → Option (DirectoryContainer F))
      → DirectoryContainer F
      → Map ℕ
      → Option (DirectoryContainer F)
  destroy_entries kill c [] = some c
  destroy_entries kill c ((name, i) ∷ es) = do c' ← kill c i; destroy_entries kill c' es

  destroy : ℕ → DirectoryContainer F → ℕ → Option (DirectoryContainer F)
  unfolding destroy_entries
  destroy zero c i = none
  destroy (suc fuel) c i = elim (c.objects i) [
    | none ↦ none
    | some (leaf f) ↦ some (record c { objects = update c.objects i none })
    | some (directory es) ↦
        destroy_entries (destroy fuel) (record c { objects = update c.objects i none }) es
  ]

  -- `files_[path] = move(f)` of a `Directory`: the object that the entry held before is deleted.
  pub directory_add : DirectoryContainer F → ℕ → Bytes → ℕ → Option (DirectoryContainer F)
  unfolding destroy
  directory_add c d name i = do
    es ← entries_of c d
    let c' = record c { objects = update c.objects d (some (directory (insert name i es))) }
    elim (lookup name es) [ none ↦ some c' | some old ↦ destroy c'.next c' old ]

  -- The second half of `MaybeCreateParentDir`, where the directory is missing: it is made first,
  -- then its parent is looked up or made (`create` is the recursive call), then the two are joined.
  pub parent_of :
      (DirectoryContainer F → Bytes → Option (DirectoryContainer F × ℕ))
      → DirectoryContainer F
      → Bytes
      → Option (DirectoryContainer F × ℕ)
  parent_of create c parent = elim (get c parent) [ some p ↦ some (c, p) | none ↦ create c parent ]

  pub create_directory :
      (DirectoryContainer F → Bytes → Option (DirectoryContainer F × ℕ))
      → DirectoryContainer F
      → Bytes
      → Option (DirectoryContainer F × ℕ)
  create_directory create c dirname = do
    let made = c.next
    (c1, parent_directory) ← parent_of create (alloc c (directory [])) (dir_name dirname)
    let c2 = record c1 { files = insert dirname made c1.files }
    c3 ← directory_add c2 parent_directory (base_name dirname) made
    some (c3, made)

  -- `MaybeCreateParentDir`: the container and the directory's pointer. Fuel bounds the recursion.
  pub maybe_create_parent_dir : ℕ → DirectoryContainer F → Bytes → Option (DirectoryContainer F × ℕ)
  unfolding create_directory parent_of directory_add
  maybe_create_parent_dir zero c dirname = none
  maybe_create_parent_dir (suc fuel) c dirname =
      if bytes_eq dirname [] then some (c, 0) else elim (get c dirname) [
        | some i ↦ some (c, i)
        | none ↦ create_directory (maybe_create_parent_dir fuel) c dirname
      ]

  -- `add(path, make_unique<...>(...))`: the caller makes the object, then `add` hangs it in.
  pub add : DirectoryContainer F → Bytes → Object F → Option (DirectoryContainer F)
  add c path o = do
    let i = c.next
    (c1, dir) ← maybe_create_parent_dir (suc (length path)) (alloc c o) (dir_name path)
    directory_add (record c1 { files = insert path i c1.files }) dir (base_name path) i

  -- `for_each(path, callback)`: the entries that the callback is given.
  pub for_each : DirectoryContainer F → Bytes → Option (Map ℕ)
  for_each c path = elim (get c path) [
    | none ↦ some []
    | some i ↦ elim (c.objects i) [
      | none ↦ none
      | some (leaf f) ↦ some []
      | some (directory es) ↦ some es
    ]
  ]
