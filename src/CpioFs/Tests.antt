-- ===== src/CpioFs/Tests.antt =====
-- An archive with a file, a second name of it and a directory, and the theorems at it.
use gitlstreefs.Base.{
  ◌+◌, ◌%◌, ◌^◌, ◌<◌, ◌||◌, false, ℕ, ◌≡◌, refl, arith, true, some, List, [], ◌∷◌, codes, All,
  Bytes, bytes_eq,
}
use gitlstreefs.Base.Outcome.{done, undefined, ◌>>=◌}
use gitlstreefs.Container.{empty_container}
use gitlstreefs.Fuse.{ok, no_stat}
use gitlstreefs.CpioFs.{
  int32_less, HardlinkKey, HardlinkMap, key_less, in_order, are_ordered, find_link,
}
use gitlstreefs.CpioFs.Devices.{noted, IsOrder, IsOn-IsOrder, ranks-in_order}
use gitlstreefs.CpioFs.File.{CpioFile, read, getattr}
use gitlstreefs.CpioFs.Load.{CpioMount, load_directory}
use gitlstreefs.CpioFs.Archive.{Entry, IsEntry, archive, key_of_entry}
use gitlstreefs.CpioFs.Loaded.{add_entries, load_directory-archive}
use gitlstreefs.CpioFs.Links.{file_of, read-hardlink}

abbrev entry : ℕ → ℕ → ℕ → Bytes → Bytes → Entry
entry inode mode nlink name contents = record {
  e_ino = inode;
  e_mode = mode;
  e_uid = 0;
  e_gid = 0;
  e_nlink = nlink;
  e_mtime = 0;
  e_major = 8;
  e_minor = 1;
  e_rmajor = 0;
  e_rminor = 0;
  e_check = 0;
  e_name = name;
  e_contents = contents;
}

abbrev folder : Entry
folder = entry 1 0x41ed 2 (codes "d") []

abbrev alone : Entry
alone = entry 2 0x81a4 1 (codes "d/a") (codes "hello")

abbrev first : Entry
first = entry 3 0x81a4 2 (codes "d/b") []

abbrev second : Entry
second = entry 3 0x81a4 2 (codes "c") (codes "shared")

abbrev entries : List Entry
entries = folder ∷ alone ∷ first ∷ second ∷ []

abbrev mount : CpioMount
mount = record { container = empty_container; world = [] }

folder-IsEntry : IsEntry folder
unfolding bytes_eq
folder-IsEntry = record {
  ino-IsWord = omega arith;
  mode-IsWord = omega arith;
  nlink-IsWord = omega arith;
  major-IsWord = omega arith;
  minor-IsWord = omega arith;
  fits = omega arith;
  unlike_trailer = refl;
}

alone-IsEntry : IsEntry alone
unfolding bytes_eq
alone-IsEntry = record {
  ino-IsWord = omega arith;
  mode-IsWord = omega arith;
  nlink-IsWord = omega arith;
  major-IsWord = omega arith;
  minor-IsWord = omega arith;
  fits = omega arith;
  unlike_trailer = refl;
}

first-IsEntry : IsEntry first
unfolding bytes_eq
first-IsEntry = record {
  ino-IsWord = omega arith;
  mode-IsWord = omega arith;
  nlink-IsWord = omega arith;
  major-IsWord = omega arith;
  minor-IsWord = omega arith;
  fits = omega arith;
  unlike_trailer = refl;
}

second-IsEntry : IsEntry second
unfolding bytes_eq
second-IsEntry = record {
  ino-IsWord = omega arith;
  mode-IsWord = omega arith;
  nlink-IsWord = omega arith;
  major-IsWord = omega arith;
  minor-IsWord = omega arith;
  fits = omega arith;
  unlike_trailer = refl;
}

entries-IsEntry : All IsEntry entries
entries-IsEntry = (folder-IsEntry, (alone-IsEntry, (first-IsEntry, (second-IsEntry, tt))))

-- The place of a file of another device with the same inode, and that of the contents.
abbrev links : HardlinkMap
links =
    (record { key_major = 9; key_minor = 1; key_inode = 3 }, archive [])
    ∷ (key_of_entry second, archive (second ∷ []))
    ∷ []

-- The keys that differ in the major number at most.
abbrev IsThird : HardlinkKey → Type 0
IsThird k = (k.key_major < 2 ^ 32) × (k.key_minor ≡ 1) × (k.key_inode ≡ 3)

key_less-major :
    (a b : HardlinkKey) → IsThird a → IsThird b → key_less a b ≡ int32_less a.key_major b.key_major
unfolding key_less
key_less-major a b (am, an, ai) (bm, bn, bi) =
    rw (an, ai, bn, bi)
      (elim (int32_less a.key_major b.key_major) as (λ t. (t || false || false) ≡ t) [
        | true ↦ refl
        | false ↦ refl
      ])

in_order-IsThird : (a b c : HardlinkKey) → IsThird a → IsThird b → IsThird c → in_order a b c ≡ true
unfolding in_order
in_order-IsThird a b c ha hb hc =
    rw
      (
        key_less-major a b ha hb,
        key_less-major b a hb ha,
        key_less-major b c hb hc,
        key_less-major a c ha hc,
      )
      (ranks-in_order ((a.key_major + 2 ^ 31) % 2 ^ 32) ((b.key_major + 2 ^ 31) % 2 ^ 32)
        ((c.key_major + 2 ^ 31) % 2 ^ 32))

IsThird-IsOrder : IsOrder IsThird
IsThird-IsOrder = record {
  ordered = in_order-IsThird;
  words = λ k h. (h.0, rw (h.1) (omega arith), rw (h.2) (omega arith));
}

second-noted : noted (key_of_entry second) links ≡ some (archive (second ∷ []))
second-noted = refl

load_directory-archive_example :
    load_directory (archive entries) mount ≡ (add_entries entries mount >>= λ m. done (true, m))
load_directory-archive_example =
    load_directory-archive (IsOn-IsOrder 8 1 (omega arith) (omega arith)) entries mount
      entries-IsEntry
      (
        (refl, refl, omega arith),
        ((refl, refl, omega arith), ((refl, refl, omega arith), ((refl, refl, omega arith), tt))),
      )
      tt

read-hardlink_example :
    (f : CpioFile) × (read (file_of first (second ∷ [])) links 3 1
      ≡ done (ok (codes "har"), f, links))
    × (getattr (file_of first (second ∷ [])) links no_stat
        ≡ done (record { mode = 0x81a4; nlink = 0; size = 6 }, f, links))
read-hardlink_example =
    read-hardlink IsThird-IsOrder first second (second ∷ []) [] links 3 1 no_stat first-IsEntry
      second-IsEntry (omega arith) (omega arith) refl (refl, refl, refl) (omega arith, refl, refl)
      ((omega arith, refl, refl), ((omega arith, refl, refl), tt)) second-noted

abbrev key : ℕ → ℕ → HardlinkKey
key major minor = record { key_major = major; key_minor = minor; key_inode = 7 }

-- Each of two keys is less than the other, so that the map's behaviour is undefined.
two_devices : find_link (key 1 2) ((key 2 1, []) ∷ []) ≡ undefined
unfolding find_link are_ordered in_order key_less
two_devices = refl
