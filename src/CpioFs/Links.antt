-- ===== src/CpioFs/Links.antt =====
-- What the files of an archive answer, those that are further names of a file included.
use mathlib.Core.Path.{subst}
use gitlstreefs.Base.{
  ℕ, take, drop, ◌≡◌, refl, sym, ap, ◌∙◌, ◌<◌, ◌^◌, ◌==◌, true, false, some, none, List, ◌∷◌, [],
  arith, length, Bytes,
}
use gitlstreefs.Base.Outcome.{done}
use gitlstreefs.Fuse.{ok, Stat}
use gitlstreefs.Fuse.Window.{window, window_lem}
use gitlstreefs.CpioFs.{filesize, key_of_header, int32_less, HardlinkKey, HardlinkMap}
use gitlstreefs.CpioFs.File.{CpioFile, resolve_hardlink, find_target, getattr, read}
use gitlstreefs.CpioFs.Devices.{IsOrder, AreIn, noted, find_link-noted}
use gitlstreefs.CpioFs.Archive.{Entry, IsEntry, archive, encode_body, key_of_entry}
use gitlstreefs.CpioFs.Header.{mode-encode, filesize-encode, key_of_header-encode, contents-encode}

-- The file that `LoadDirectory` makes of the first entry of an archive.
abbrev pub file_of : Entry → List Entry → CpioFile
file_of e es = record { header = archive (e ∷ es); links = e.e_nlink; target = none }

resolve-single :
    (f : CpioFile) (m : HardlinkMap)
    → (f.links == 1) ≡ true
    → resolve_hardlink f m ≡ done (f.header, f)
unfolding resolve_hardlink
resolve-single f m h = rw h

resolve-further :
    (f : CpioFile) (m : HardlinkMap) (t : Bytes)
    → (f.links == 1) ≡ false
    → int32_less 1 f.links ≡ true
    → f.target ≡ none
    → find_target f m ≡ done t
    → resolve_hardlink f m ≡ done (t, record f { target = some t })
unfolding resolve_hardlink
resolve-further f m t h k fresh found = rw (h, fresh, k, found)

-- The file that is made of an entry with one name reads the contents of the entry, from any offset
-- on, and has the mode of the entry and the length of the contents.
pub read-single :
    (e : Entry) (es : List Entry) (m : HardlinkMap) (size offset : ℕ) (stbuf : Stat)
    → IsEntry e
    → e.e_nlink ≡ 1
    → (read (file_of e es) m size offset
        ≡ done (ok (window e.e_contents size offset), file_of e es, m))
      × (getattr (file_of e es) m stbuf
          ≡ done (record stbuf { mode = e.e_mode; size = length e.e_contents }, file_of e es, m))
unfolding read getattr
read-single e es m size offset stbuf entry one =
    let single : (e.e_nlink == 1) ≡ true = ground arith in
    let small = entry.fits in
    let n = filesize-encode e (encode_body e (archive es)) (omega arith) in
    let resolved = resolve-single (file_of e es) m single in
    (
      rw (resolved, contents-encode e (archive es) entry.fits),
      rw (resolved, mode-encode e (encode_body e (archive es)) entry.mode-IsWord, n),
    )

find_target-found :
    {P : HardlinkKey → Type 0} (o : IsOrder P) (f : CpioFile) (m : HardlinkMap) (t : Bytes)
    → (filesize f.header == 0) ≡ true
    → P (key_of_header f.header)
    → AreIn P m
    → noted (key_of_header f.header) m ≡ some t
    → find_target f m ≡ done t
unfolding find_target
find_target-found o f m t empty on ons found =
    rw (empty, find_link-noted o (key_of_header f.header) m on ons, found) refl

-- The entries have the same device and inode.
abbrev pub IsSameFile : Entry → Entry → Type 0
IsSameFile e d = (e.e_major ≡ d.e_major) × (e.e_minor ≡ d.e_minor) × (e.e_ino ≡ d.e_ino)

find_target-empty :
    {P : HardlinkKey → Type 0} (o : IsOrder P) (e d : Entry) (es : List Entry) (m : HardlinkMap)
    (t : Bytes)
    → IsEntry e
    → e.e_contents ≡ []
    → IsSameFile e d
    → P (key_of_entry d)
    → AreIn P m
    → noted (key_of_entry d) m ≡ some t
    → find_target (file_of e es) m ≡ done t
find_target-empty {P = P} o e d es m t entry empty (same_major, same_minor, same_ino) on ons found =
    let same : key_of_entry e ≡ key_of_entry d = rw (same_major, same_minor, same_ino) refl in
    let body = encode_body e (archive es) in
    let small = entry.fits in
    let n = filesize-encode e body (omega arith) in
    let key = key_of_header-encode e body entry.ino-IsWord entry.major-IsWord entry.minor-IsWord in
    find_target-found o (file_of e es) m t (ap (λ k. k == 0) n ∙ ap (λ c. length c == 0) empty)
      (subst P (sym (key ∙ same)) on) ons (ap (λ k. noted k m) (key ∙ same) ∙ found)

-- A file of several names whose own entry is empty, of which the archive has the contents with
-- another entry of the same device and inode, and where the place of that entry is noted under its
-- three numbers, and its key and all that are noted belong to a set of keys of which `operator<` is
-- an order, reads the contents of that entry from the offset on, as many bytes as are asked for and
-- there, and has their length and its own mode.
pub read-hardlink :
    {P : HardlinkKey → Type 0} (o : IsOrder P) (e d : Entry) (es ds : List Entry) (m : HardlinkMap)
    (size offset : ℕ) (stbuf : Stat)
    → IsEntry e
    → IsEntry d
    → 1 < e.e_nlink
    → e.e_nlink < 2 ^ 31
    → e.e_contents ≡ []
    → IsSameFile e d
    → P (key_of_entry d)
    → AreIn P m
    → noted (key_of_entry d) m ≡ some (archive (d ∷ ds))
    → (f : CpioFile) × (read (file_of e es) m size offset
        ≡ done (ok (take size (drop offset d.e_contents)), f, m))
      × (getattr (file_of e es) m stbuf
          ≡ done (record stbuf { mode = e.e_mode; size = length d.e_contents }, f, m))
unfolding read getattr
read-hardlink o e d es ds m size offset stbuf entry source many word empty same on ons found =
    let several : (e.e_nlink == 1) ≡ false = ground arith in
    let positive : int32_less 1 e.e_nlink ≡ true = ground arith in
    let small = source.fits in
    let resolved =
      resolve-further (file_of e es) m (archive (d ∷ ds)) several positive refl
        (find_target-empty o e d es m (archive (d ∷ ds)) entry empty same on ons found) in
    let n = filesize-encode d (encode_body d (archive ds)) (omega arith) in
    let f : CpioFile = record (file_of e es) { target = some (archive (d ∷ ds)) } in
    (
      f,
      rw (resolved, contents-encode d (archive ds) source.fits)
          (ap (λ w. done (ok w, f, m)) (window_lem d.e_contents size offset)),
      rw (resolved, mode-encode e (encode_body e (archive es)) entry.mode-IsWord, n),
    )
