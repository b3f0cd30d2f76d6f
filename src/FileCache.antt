-- ===== src/FileCache.antt =====
-- cached_file.h and cached_file.cc: `Cache`, the files that were fetched, on disk and in memory. The
-- disk is a map from paths to contents; a mapped file is its contents. `mmap` is a parameter, as are
-- what the fetch function gives and what other threads do while the lock is free. The calls of
-- mkdir, open for writing, write and rename succeed; the file of the lock and Gc are left out.
pub mod Get
pub mod Release
mod Tests
use gitlstreefs.Base.{
  Option, none, some, [], ◌∷◌, ◌++◌, Bool, true, false, if◌then◌else◌, bytes_eq, Bytes, Map, lookup,
  insert, emplace,
}
use gitlstreefs.Base.Outcome.{Outcome, done, undefined, ◌>>=◌}

pub record Cache : Type 0 where
  pub mapped_files : Map Bytes
  pub disk : Map Bytes

-- `GetFileName` and the path made of its results; `substr(2)` throws on a name that is too short.
unfoldable pub cache_file_path : Bytes → Bytes → Outcome Bytes
cache_file_path cache_dir (a ∷ b ∷ name) = done (cache_dir ++ a ∷ b ∷ b'/' ∷ name)
cache_file_path cache_dir name = undefined

module _ (cache_dir : Bytes) (mmap : Bytes → Option Bytes) where
  -- From `fstat` on, with the contents of the open file. `none` is the null pointer.
  unfoldable pub map_file : Bytes → Bytes → Cache → Option Bytes × Cache
  map_file name contents c = elim (mmap contents) [
    | none ↦ (none, c)
    | some m ↦
        let mapped = emplace name m c.mapped_files in
        (lookup name mapped, record c { mapped_files = mapped })
  ]

  -- What follows the fetching, under the lock again.
  unfoldable pub store_file : Bytes → Bytes → Bytes → Cache → Option Bytes × Cache
  store_file name path contents c = elim (lookup name c.mapped_files) [
    | some m ↦ (some m, c)
    | none ↦ map_file name contents (record c { disk = insert path contents c.disk })
  ]

  -- `get`: `fetched` is what the fetch function gives, `others` what other threads do meanwhile.
  unfoldable pub get :
      Option Bytes → (Cache → Cache) → Bytes → Cache → Outcome (Option Bytes × Cache)
  get fetched others name c = elim (lookup name c.mapped_files) [
    | some m ↦ done (some m, c)
    | none ↦ do
      path ← cache_file_path cache_dir name
      done (elim (lookup path c.disk) [
        | some contents ↦ map_file name contents c
        | none ↦ elim fetched [
          | none ↦ (none, others c)
          | some contents ↦ store_file name path contents (others c)
        ]
      ])
  ]

-- `m.erase(it)`.
unfoldable pub erase : {V : Type 0} → Bytes → Map V → Map V
erase k [] = []
erase k ((j, v) ∷ m) = if bytes_eq j k then m else (j, v) ∷ erase k m

-- `assert(&it->second == item)`. `end()` must not be dereferenced; a pointer to an entry is the file
-- that is mapped there, `none` the null pointer.
unfoldable pub is_item : Option Bytes → Option Bytes → Outcome Bool
is_item none item = undefined
is_item (some m) none = done false
is_item (some m) (some i) = done (bytes_eq m i)

-- `release`: what is erased and asserted is the entry that the search did not find.
unfoldable pub release : Bytes → Option Bytes → Cache → Outcome (Bool × Cache)
unfolding is_item erase
release name item c =
    let it = lookup name c.mapped_files in
    let rest : Outcome (Bool × Cache) = is_item it item >>= λ same.
    (if same
      then done (true, record c { mapped_files = erase name c.mapped_files })
      else undefined) in
    elim it [ some m ↦ done (false, c) | none ↦ rest ]
