-- ===== src/CpioFs/Loaded.antt =====
-- `LoadDirectory` on an archive, and what the files read that it makes.
use Prim.Native.Nat.{bit_and}
use gitlstreefs.Base.{
  ℕ, zero, suc, ◌≡◌, refl, sym, ap, Bool, Bool-cases, Option-cases, inl, inr, false, ◌∙◌, ◌≤◌, ◌<◌,
  ◌==◌, true, not, ◌&&◌, ◌||◌, List, [], ◌∷◌, none, All, if◌then◌else◌, arith, Bytes, bytes_eq_refl,
  codes, length,
}
use gitlstreefs.Base.Outcome.{
  Outcome, done, defined, ◌>>=◌, Holds, bind_congr, bind_congr_where, bind_assoc,
}
use gitlstreefs.Container.{leaf, DirectoryContainer, add}
use gitlstreefs.Fuse.{s_ifreg, s_iflnk}
use gitlstreefs.CpioFs.{HardlinkKey, HardlinkMap, int32_less, file_name}
use gitlstreefs.CpioFs.File.{CpioFile}
use gitlstreefs.CpioFs.Devices.{IsOrder, AreIn, note, assign_link-note, note-AreIn}
use gitlstreefs.CpioFs.Load.{
  CpioMount, load_file, load_header, load_headers, load_directory, s_ifmt,
}
use gitlstreefs.CpioFs.Archive.{Entry, IsEntry, key_of_entry, trailer, archive, encode_body}
use gitlstreefs.CpioFs.Header.{
  key_of_header-encode, mode-encode, nlink-encode, filesize-encode, check_header-encode,
  file_name-encode, next_header-encode, length-encode_header, length-encode_body,
}

-- What an entry adds: a file under its name that refers to the place in the archive, and this place
-- under the numbers of the entry if it has several names and is not empty. Other types are passed
-- over.
abbrev add_entry : Entry → Bytes → CpioMount → Outcome CpioMount
add_entry e image m =
    let type = bit_and e.e_mode s_ifmt in
    if type == s_ifreg || type == s_iflnk
    then (defined (
          add m.container (b'/' ∷ e.e_name)
            (leaf (record { header = image; links = e.e_nlink; target = none })))
        >>= λ container. done (record {
          container = container;
          world =
              if int32_less 1 e.e_nlink && not (length e.e_contents == 0)
              then note (key_of_entry e) image m.world
              else m.world;
        }))
    else done m

abbrev pub add_entries : List Entry → CpioMount → Outcome CpioMount
add_entries [] m = done m
add_entries (e ∷ es) m = add_entry e (archive (e ∷ es)) m >>= add_entries es

world_lem :
    (link : Bool) (w : HardlinkMap) (m : CpioMount) (c : DirectoryContainer CpioFile)
    → ((if link then done w else done m.world) >>= λ world.
        done (record m { container = c; world = world }))
      ≡ done (record m { container = c; world = if link then w else m.world })
world_lem true w m c = refl
world_lem false w m c = refl

load_header-encode :
    {P : HardlinkKey → Type 0} (o : IsOrder P) (e : Entry) (es : List Entry) (m : CpioMount)
    → IsEntry e
    → P (key_of_entry e)
    → AreIn P m.world
    → load_header (archive (e ∷ es)) m ≡ add_entry e (archive (e ∷ es)) m
unfolding load_header load_file
load_header-encode o e es m entry on ons =
    let small = entry.fits in
    let body = encode_body e (archive es) in
    let f = filesize-encode e body (omega arith) in
    let key = key_of_header-encode e body entry.ino-IsWord entry.major-IsWord entry.minor-IsWord in
    let noting = assign_link-note o (key_of_entry e) (archive (e ∷ es)) m.world on ons in
    let type = bit_and e.e_mode s_ifmt in
    let link = int32_less 1 e.e_nlink && not (length e.e_contents == 0) in
    let file = leaf (record { header = archive (e ∷ es); links = e.e_nlink; target = none }) in
    rw
      (
        mode-encode e body entry.mode-IsWord,
        file_name-encode e (archive es) small,
        nlink-encode e body entry.nlink-IsWord,
        f,
        key,
        noting,
      )
      (ap (λ o. if type == s_ifreg || type == s_iflnk then o else done m)
        (bind_congr (defined (add m.container (b'/' ∷ e.e_name) file)) _ _
          (λ c. world_lem link (note (key_of_entry e) (archive (e ∷ es)) m.world) m c)))

add_entry-Holds :
    {P : HardlinkKey → Type 0} (o : IsOrder P) (e : Entry) (image : Bytes) (m : CpioMount)
    → IsEntry e
    → P (key_of_entry e)
    → AreIn P m.world
    → Holds (λ m'. AreIn P m'.world) (add_entry e image m)
add_entry-Holds {P = P} o e image m entry on ons =
    let type = bit_and e.e_mode s_ifmt in
    let made : CpioFile = record { header = image; links = e.e_nlink; target = none } in
    let file = leaf made in
    let link = int32_less 1 e.e_nlink && not (length e.e_contents == 0) in
    elim (Bool-cases (type == s_ifreg || type == s_iflnk)) [
      | inr other ↦ rw other ons
      | inl taken ↦ elim (Option-cases (add m.container (b'/' ∷ e.e_name) file)) [
        | inl fails ↦ rw (taken, fails) tt
        | inr (c, runs) ↦ elim (Bool-cases link) [
          | inr single ↦ rw (taken, runs, single) ons
          | inl several ↦
              rw (taken, runs, several) (note-AreIn P (key_of_entry e) image m.world on ons)
        ]
      ]
    ]

load_headers-trailer :
    (m : CpioMount) (fuel : ℕ) → load_headers (suc fuel) (archive []) m ≡ done (true, m)
unfolding load_headers
load_headers-trailer m fuel =
    let name : file_name (archive []) ≡ done (codes "TRAILER!!!") =
      file_name-encode trailer [] (omega arith) in
    rw
      (
        check_header-encode trailer (encode_body trailer []),
        name,
        bytes_eq_refl (codes "TRAILER!!!"),
      )
      refl

load_headers-entry :
    {P : HardlinkKey → Type 0} (o : IsOrder P) (e : Entry) (es : List Entry) (m : CpioMount)
    (fuel : ℕ)
    → IsEntry e
    → P (key_of_entry e)
    → AreIn P m.world
    → load_headers (suc fuel) (archive (e ∷ es)) m
      ≡ (add_entry e (archive (e ∷ es)) m >>= λ m'. load_headers fuel (archive es) m')
unfolding load_headers
load_headers-entry o e es m fuel entry on ons =
    rw
      (
        check_header-encode e (encode_body e (archive es)),
        file_name-encode e (archive es) entry.fits,
        entry.unlike_trailer,
        load_header-encode o e es m entry on ons,
        next_header-encode e (archive es) entry.fits,
      )
      refl

load_headers-archive :
    {P : HardlinkKey → Type 0} (o : IsOrder P) (es : List Entry) (m : CpioMount) (fuel : ℕ)
    → All IsEntry es
    → All (λ e. P (key_of_entry e)) es
    → AreIn P m.world
    → length es < fuel
    → load_headers fuel (archive es) m ≡ (add_entries es m >>= λ m'. done (true, m'))
load_headers-archive {P = P} o es m zero h on ons k = absurd (omega arith)
load_headers-archive {P = P} o [] m (suc fuel) h on ons k = load_headers-trailer m fuel
load_headers-archive {P = P} o (e ∷ es) m (suc fuel) h on ons k =
    load_headers-entry o e es m fuel h.0 on.0 ons
    ∙ bind_congr_where (λ m'. AreIn P m'.world) (add_entry e (archive (e ∷ es)) m)
        (λ m'. load_headers fuel (archive es) m')
        (λ m'. add_entries es m' >>= λ m''. done (true, m''))
        (add_entry-Holds o e (archive (e ∷ es)) m h.0 on.0 ons)
        (λ m' ons'. load_headers-archive o es m' fuel h.1 on.1 ons' (omega arith))
    ∙ sym (bind_assoc (add_entry e (archive (e ∷ es)) m) (add_entries es) (λ m'. done (true, m')))

length-archive : (es : List Entry) → length es ≤ length (archive es)
length-archive [] = omega arith
length-archive (e ∷ es) =
    let n = length-archive es in
    let b = length-encode_body e (archive es) in
    omega (arith, length-encode_header e (encode_body e (archive es)), b, n)

-- On an archive whose entries have numbers of 32 bits, sizes that fit an `int32_t` and names other
-- than that of the trailer, and whose keys, with those that were noted before, belong to a set of
-- keys of which `operator<` is an order, as those of one device are, `LoadDirectory` ends and
-- succeeds if every call of `add` does: it adds the regular files and the symbolic links, in their
-- order, under their names with a slash before them, and notes under the three numbers of its key the
-- place of every one that has several names and is not empty, in place of an earlier one; the other
-- entries are passed over.
pub load_directory-archive :
    {P : HardlinkKey → Type 0} (o : IsOrder P) (es : List Entry) (m : CpioMount)
    → All IsEntry es
    → All (λ e. P (key_of_entry e)) es
    → AreIn P m.world
    → load_directory (archive es) m ≡ (add_entries es m >>= λ m'. done (true, m'))
unfolding load_directory
load_directory-archive o es m h on ons =
    load_headers-archive o es m (suc (length (archive es))) h on ons
      (omega (arith, length-archive es))
