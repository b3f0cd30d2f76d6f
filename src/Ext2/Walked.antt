-- ===== src/Ext2/Walked.antt =====
-- What `WalkDir` adds for a tree of directories.
use Prim.Native.Nat.{bit_and}
use mathlib.Core.Path.{subst, fun_ext}
use gitlstreefs.Base.{
  ℕ, zero, suc, ◌≡◌, refl, sym, ◌+◌, ◌*◌, ◌≤◌, ◌<◌, ◌^◌, [], ◌∷◌, ◌++◌, arith, true, false, Option,
  Option-cases, Bool-cases, inl, inr, ap, some, if◌then◌else◌, ◌∙◌, leb, ◌==◌, Bytes, none, codes,
}
use gitlstreefs.Base.Outcome.{Outcome, done, undefined, out_of_fuel, defined, ◌>>=◌, bind_congr}
use gitlstreefs.Container.{leaf, add, empty_container}
use gitlstreefs.Fuse.{s_ifdir}
use gitlstreefs.Ext2.File.{FileContent}
use gitlstreefs.Ext2.{
  Reader, magic, feature_incompat, superblock_location, inode, mode, block, entry_inode, filename,
  next_entry,
}
use gitlstreefs.Ext2.Blocks.{read_block-done}
use gitlstreefs.Ext2.Load.{
  Ext2Mount, s_ifmt, add_file, is_dots, visit, walk_entries, walk_dir, open_image, load_directory,
  cache_inode, assert_eq, ext4_feature_incompat_filetype,
}

-- The entries of a directory's first block, from one on: an entry for the directory itself or its
-- parent, a file with the place of its inode, or a directory with the entries of its own.
pub data Entries : Type 0 where
  finish : Entries
  dots : Entries → Entries
  file : Bytes → ℕ → Entries → Entries
  folder : Bytes → Entries → Entries → Entries

abbrev pub depth : Entries → ℕ
depth finish = 0
depth (dots es) = suc (depth es)
depth (file name at es) = suc (depth es)
depth (folder name inner es) = suc (depth inner + depth es)

-- The entry at a place has the name, refers to the inode, and is followed by the entry behind it.
pub record IsEntry (r : Reader) (dirent : ℕ) (name : Bytes) (at next : ℕ) : Type 0 where
  pub named : filename r.image dirent ≡ done name
  pub number : ℕ
  pub numbered : entry_inode r.image dirent ≡ done number
  pub placed : inode r number ≡ done at
  pub followed : next_entry r.image dirent ≡ done next

abbrev pub IsFolder : Reader → ℕ → ℕ → Type 0
IsFolder r at begin =
    (n : ℕ) × (bits : ℕ) × (mode r.image at ≡ done bits)
    × (bit_and bits s_ifmt ≡ s_ifdir)
    × (block r.image at 0 ≡ done n)
    × (n < 2 ^ 31)
    × (begin ≡ n * r.block_size)

abbrev pub IsOther : Reader → ℕ → Type 0
IsOther r at =
    (bits : ℕ) × (mode r.image at ≡ done bits) × ((bit_and bits s_ifmt == s_ifdir) ≡ false)

-- The entries stand in the image from `dirent` on, up to the end of the block.
abbrev pub Stored : Reader → ℕ → ℕ → Entries → Type 0
Stored r end dirent finish = end ≤ dirent
Stored r end dirent (dots es) =
    (name : Bytes) × (next : ℕ) × (dirent < end)
    × (filename r.image dirent ≡ done name)
    × (is_dots name ≡ true)
    × (next_entry r.image dirent ≡ done next)
    × Stored r end next es
Stored r end dirent (file name at es) =
    (next : ℕ) × (dirent < end)
    × IsEntry r dirent name at next
    × (is_dots name ≡ false)
    × IsOther r at
    × Stored r end next es
Stored r end dirent (folder name inner es) =
    (at : ℕ) × (next : ℕ) × (begin : ℕ) × (dirent < end)
    × IsEntry r dirent name at next
    × (is_dots name ≡ false)
    × IsFolder r at begin
    × Stored r (begin + r.block_size) begin inner
    × Stored r end next es

-- A file at the place of an inode under a path. An inode that was noted keeps its contents; another
-- is noted without contents.
abbrev pub note_file : Bytes → ℕ → Ext2Mount → Outcome Ext2Mount
note_file path at m = defined (add m.container path (leaf at)) >>= λ container. done (record {
  container = container;
  world = record {
    reader = m.world.reader;
    inode_cache = λ i.
        if i == at
        then elim (m.world.inode_cache i) [ none ↦ some none | some c ↦ some c ]
        else m.world.inode_cache i;
  };
})

-- The files of the tree, each under its path, in their order.
abbrev pub add_files : Bytes → Entries → Ext2Mount → Outcome Ext2Mount
add_files path finish m = done m
add_files path (dots es) m = add_files path es m
add_files path (file name at es) m = note_file (path ++ name) at m >>= λ m'. add_files path es m'
add_files path (folder name inner es) m =
    add_files ((path ++ name) ++ b'/' ∷ []) inner m >>= λ m'. add_files path es m'

-- The reader is the same afterwards.
abbrev Keeps : Reader → Outcome Ext2Mount → Type 0
Keeps r (done m) = m.world.reader ≡ r
Keeps r undefined = Unit
Keeps r out_of_fuel = Unit

bind-Keeps :
    (r : Reader) (o : Outcome Ext2Mount) (f : Ext2Mount → Outcome Ext2Mount)
    → Keeps r o
    → ((m : Ext2Mount) → m.world.reader ≡ r → Keeps r (f m))
    → Keeps r (o >>= f)
bind-Keeps r (done m) f k h = h m k
bind-Keeps r undefined f k h = tt
bind-Keeps r out_of_fuel f k h = tt

bind_congr_on :
    (r : Reader) (o : Outcome Ext2Mount) (f g : Ext2Mount → Outcome Ext2Mount)
    → Keeps r o
    → ((m : Ext2Mount) → m.world.reader ≡ r → f m ≡ g m)
    → (o >>= f) ≡ (o >>= g)
bind_congr_on r (done m) f g k h = h m k
bind_congr_on r undefined f g k h = refl
bind_congr_on r out_of_fuel f g k h = refl

add_file-Keeps :
    (path : Bytes) (at : ℕ) (m : Ext2Mount) → Keeps m.world.reader (note_file path at m)
add_file-Keeps path at m = elim (Option-cases (add m.container path (leaf at))) [
  | inl e ↦ rw e tt
  | inr (c, e) ↦ rw e refl
]

add_files-Keeps :
    (r : Reader) (path : Bytes) (es : Entries) (m : Ext2Mount)
    → m.world.reader ≡ r
    → Keeps r (add_files path es m)
add_files-Keeps r path finish m e = e
add_files-Keeps r path (dots es) m e = add_files-Keeps r path es m e
add_files-Keeps r path (file name at es) m e =
    bind-Keeps r (note_file (path ++ name) at m) (λ m'. add_files path es m')
      (subst (λ q. Keeps q (note_file (path ++ name) at m)) e (add_file-Keeps (path ++ name) at m))
      (λ m' e'. add_files-Keeps r path es m' e')
add_files-Keeps r path (folder name inner es) m e =
    bind-Keeps r (add_files ((path ++ name) ++ b'/' ∷ []) inner m) (λ m'. add_files path es m')
      (add_files-Keeps r ((path ++ name) ++ b'/' ∷ []) inner m e)
      (λ m' e'. add_files-Keeps r path es m' e')

cache_inode-noted :
    (at : ℕ) (cache : ℕ → Option (Option FileContent)) (i : ℕ)
    → cache_inode at cache i
      ≡ (if i == at then elim (cache i) [ none ↦ some none | some c ↦ some c ] else cache i)
unfolding cache_inode
cache_inode-noted at cache i = elim (Bool-cases (i == at)) [
  | inr other ↦
      let apart : (at == i) ≡ false = ground arith in
      elim (Option-cases (cache at)) [
        | inl e ↦ rw (e, cache_inode, other, apart) refl
        | inr (c, e) ↦ rw (e, cache_inode, other) refl
      ]
  | inl same ↦
      let here : at ≡ i = ground arith in
      let found : (at == i) ≡ true = ground arith in
      elim (Option-cases (cache at)) [
        | inl e ↦ let e' = ap cache (sym here) ∙ e in rw (e, cache_inode, same, found, e') refl
        | inr (c, e) ↦ let e' = ap cache (sym here) ∙ e in rw (e, cache_inode, same, e') refl
      ]
]

add_file-noted : (path : Bytes) (at : ℕ) (m : Ext2Mount) → add_file path at m ≡ note_file path at m
unfolding add_file
add_file-noted path at m = bind_congr (defined (add m.container path (leaf at))) _ _ (λ c.
    ap
      (λ (f : ℕ → Option (Option FileContent)).
        done
          (record { container = c; world = record { reader = m.world.reader; inode_cache = f } }))
      (fun_ext (cache_inode-noted at m.world.inode_cache)))

module _ (walk : Bytes → ℕ → ℕ → Ext2Mount → Outcome Ext2Mount) (path : Bytes) (dirent : ℕ)
    (name : Bytes) (m : Ext2Mount) (at next : ℕ)
    (entry : IsEntry m.world.reader dirent name at next) where
  visit-file :
      IsOther m.world.reader at → visit walk path dirent name m ≡ note_file (path ++ name) at m
  unfolding visit
  visit-file (bits, read, other) =
      rw (entry.numbered, entry.placed, read, other) (add_file-noted (path ++ name) at m)

  visit-folder :
      (begin : ℕ)
      → IsFolder m.world.reader at begin
      → visit walk path dirent name m
        ≡ walk ((path ++ name) ++ b'/' ∷ []) (begin + m.world.reader.block_size) begin m
  unfolding visit
  visit-folder begin (n, bits, read, is, first, small, place) =
      let is_folder : (bit_and bits s_ifmt == s_ifdir) ≡ true = ground arith in
      rw
        (
          entry.numbered,
          entry.placed,
          read,
          is_folder,
          first,
          read_block-done m.world.reader.block_size n small,
          place,
        )
        refl

walk_entries-Stored :
    (fuel : ℕ) (path : Bytes) (end dirent : ℕ) (es : Entries) (m : Ext2Mount)
    → Stored m.world.reader end dirent es
    → depth es < fuel
    → walk_entries fuel path end dirent m ≡ add_files path es m
unfolding walk_entries
walk_entries-Stored zero path end dirent es m s l = absurd (omega arith)
walk_entries-Stored (suc fuel) path end dirent finish m s l =
    let over : leb end dirent ≡ true = ground arith in rw over refl
walk_entries-Stored (suc fuel) path end dirent (dots es) m
      (name, next, before, named, is, follows, rest) l =
    let inside : leb end dirent ≡ false = ground arith in
    rw (inside, named, is, follows) (walk_entries-Stored fuel path end next es m rest (omega arith))
walk_entries-Stored (suc fuel) path end dirent (file name at es) m
      (next, before, entry, no_dots, other, rest) l =
    let inside : leb end dirent ≡ false = ground arith in
    rw
      (
        inside,
        entry.named,
        no_dots,
        visit-file (walk_entries fuel) path dirent name m at next entry other,
        entry.followed,
      )
      (bind_congr_on m.world.reader (note_file (path ++ name) at m)
        (λ m'. walk_entries fuel path end next m') (λ m'. add_files path es m')
        (add_file-Keeps (path ++ name) at m)
        (λ m' e.
          walk_entries-Stored fuel path end next es m'
            (subst (λ r. Stored r end next es) (sym e) rest) (omega arith)))
walk_entries-Stored (suc fuel) path end dirent (folder name inner es) m
      (at, next, begin, before, entry, no_dots, is, below, rest) l =
    let inside : leb end dirent ≡ false = ground arith in
    let new_path = (path ++ name) ++ b'/' ∷ [] in
    rw
      (
        inside,
        entry.named,
        no_dots,
        visit-folder (walk_entries fuel) path dirent name m at next entry begin is,
        walk_entries-Stored fuel new_path (begin + m.world.reader.block_size) begin inner m below
            (omega arith),
        entry.followed,
      )
      (bind_congr_on m.world.reader (add_files new_path inner m)
        (λ m'. walk_entries fuel path end next m') (λ m'. add_files path es m')
        (add_files-Keeps m.world.reader new_path inner m refl)
        (λ m' e.
          walk_entries-Stored fuel path end next es m'
            (subst (λ r. Stored r end next es) (sym e) rest) (omega arith)))

-- The root directory: inode 2, with its mode and the number of its first block.
pub record IsRoot (r : Reader) (root n : ℕ) : Type 0 where
  pub second : inode r 2 ≡ done root
  pub folder_mode : mode r.image root ≡ done 0x41ed
  pub first_block : block r.image root 0 ≡ done n
  pub fits : n < 2 ^ 31

abbrev pub empty_mount : Reader → Ext2Mount
empty_mount r = record {
  container = empty_container;
  world = record { reader = r; inode_cache = λ i. none };
}

-- What the superblock of an image says that is accepted.
pub record IsExt2 (image : Bytes) : Type 0 where
  pub number : magic image superblock_location ≡ done 0xef53
  pub features : ℕ
  pub read : feature_incompat image superblock_location ≡ done features
  pub filetype : bit_and features 2 ≡ 2
  pub no_others : bit_and features 0xfffffffd ≡ 0

bind-done :
    {A B : Type 0} (o : Outcome A) (f : A → Outcome B) (b : B)
    → (o >>= f) ≡ done b
    → (a : A) × (o ≡ done a) × (f a ≡ done b)
bind-done (done a) f b e = (a, refl, e)
bind-done undefined f b e = cc e
bind-done out_of_fuel f b e = cc e

assert_eq-done : (a b : ℕ) (u : Unit {0}) → assert_eq a b ≡ done u → a ≡ b
assert_eq-done a b u e = elim (Bool-cases (a == b)) [
  | inl same ↦ ground arith
  | inr other ↦ cc (rw other at e)
]

open_image-IsExt2 : (image : Bytes) (r : Reader) → open_image image ≡ done r → IsExt2 image
unfolding open_image
open_image-IsExt2 image r e =
    let (m, m_read, e1) = bind-done (magic image superblock_location) _ r e in
    let (u, m_is, e2) = bind-done (assert_eq m 0xef53) _ r e1 in
    let (f, f_read, e3) = bind-done (feature_incompat image superblock_location) _ r e2 in
    let (u', f_is, e4) =
      bind-done
        (assert_eq (bit_and f ext4_feature_incompat_filetype) ext4_feature_incompat_filetype) _ r
        e3 in
    let (u'', f_only, e5) = bind-done (assert_eq (bit_and f 0xfffffffd) 0) _ r e4 in
    record {
      number = m_read ∙ ap (λ n. done n) (assert_eq-done m 0xef53 u m_is);
      features = f;
      read = f_read;
      filetype = assert_eq-done (bit_and f 2) 2 u' f_is;
      no_others = assert_eq-done (bit_and f 0xfffffffd) 0 u'' f_only;
    }

-- On an image with a superblock that is accepted, where a tree of entries stands in the first blocks
-- of its directories, `LoadDirectory` ends, with fuel above the number of the entries, and succeeds
-- if every call of `add` does: it adds the files of the tree, in their order, each under its path and
-- with the place of its inode. Each inode is noted, without contents at first; one that was noted
-- before keeps what it has, and no other changes. A superblock that is accepted has the magic number
-- 0xef53, and of the incompatible features it has that of file types and no other.
pub load_directory-Stored :
    (image : Bytes) (r : Reader) (root n fuel : ℕ) (es : Entries)
    → open_image image ≡ done r
    → IsRoot r root n
    → Stored r (n * r.block_size + r.block_size) (n * r.block_size) es
    → depth es < fuel
    → (load_directory fuel image ≡ add_files (codes "/") es (empty_mount r)) × IsExt2 image
unfolding load_directory walk_dir
load_directory-Stored image r root n fuel es opens is stored l = (
  rw (opens, is.second, is.folder_mode, is.first_block, read_block-done r.block_size n is.fits)
      (walk_entries-Stored fuel (codes "/") (n * r.block_size + r.block_size) (n * r.block_size) es
        (empty_mount r) stored l),
  open_image-IsExt2 image r opens,
)
