-- ===== src/Ext2/Load.antt =====
-- The constructor of `Ext2Reader`, `WalkDir`, `LoadDirectory` and the callbacks of ext2.cc.
use Prim.Native.Nat.{bit_and}
use gitlstreefs.Base.{
  ℕ, zero, suc, ◌+◌, Bool, ◌||◌, leb, ◌==◌, Option, none, some, List, [], ◌∷◌, ◌++◌, if◌then◌else◌,
  Bytes, bytes_eq, codes,
}
use gitlstreefs.Base.Outcome.{Outcome, done, undefined, out_of_fuel, defined, ◌>>=◌}
use gitlstreefs.Container.{leaf, empty_container, add, update}
use gitlstreefs.Fuse.{Result, Stat, s_ifdir, Mount}
use gitlstreefs.Fuse.Adapter
use gitlstreefs.Fuse.Callbacks.{open_directory, open_path, readlink_path}
use gitlstreefs.Ext2.{
  Reader, superblock_location, block_size_of, block_group_descriptor_table_block_number,
  inodes_per_group_of, inode_size_of, magic, feature_incompat, read_block, inode, mode, block,
  entry_inode, filename, next_entry,
}
use gitlstreefs.Ext2.File.{FileContent, Ext2File, World, ext2_file}

abbrev pub Ext2Mount : Type 0
Ext2Mount = Mount Ext2File World

abbrev pub s_ifmt : ℕ
s_ifmt = 0xf000

-- The `InodeCache` of the inode is made if it is not there.
unfoldable pub cache_inode : ℕ → (ℕ → Option (Option FileContent)) → ℕ → Option (Option FileContent)
cache_inode at cache = elim (cache at) [ none ↦ update cache at (some none) | some c ↦ cache ]

-- A file of `WalkDir`.
unfoldable pub add_file : Bytes → ℕ → Ext2Mount → Outcome Ext2Mount
add_file new_path at m = do
  container ← defined (add m.container new_path (leaf at))
  done (record {
    container = container;
    world = record m.world { inode_cache = cache_inode at m.world.inode_cache };
  })

abbrev pub is_dots : Bytes → Bool
is_dots name = bytes_eq name (codes ".") || bytes_eq name (codes "..")

-- A round of the loop of `WalkDir` for another name; `walk` is the loop over another directory, with
-- the path, the end and the start of its block.
unfoldable pub visit :
    (Bytes → ℕ → ℕ → Ext2Mount → Outcome Ext2Mount)
    → Bytes
    → ℕ
    → Bytes
    → Ext2Mount
    → Outcome Ext2Mount
visit walk path dirent name m = do
  let r = m.world.reader
  inode_number ← entry_inode r.image dirent
  at ← inode r inode_number
  bits ← mode r.image at
  let new_path = path ++ name
  let descend : Outcome Ext2Mount = do
    n ← block r.image at 0
    begin ← read_block r.block_size n
    walk (new_path ++ b'/' ∷ []) (begin + r.block_size) begin m
  if bit_and bits s_ifmt == s_ifdir then descend else add_file new_path at m

-- The loop of `WalkDir`, at an entry. The fuel bounds the entries behind one another and the depth.
unfoldable pub walk_entries : ℕ → Bytes → ℕ → ℕ → Ext2Mount → Outcome Ext2Mount
walk_entries zero path end dirent m = out_of_fuel
walk_entries (suc fuel) path end dirent m =
    let round : Outcome Ext2Mount = do
      name ← filename m.world.reader.image dirent
      m' ← (if is_dots name then done m else visit (walk_entries fuel) path dirent name m)
      next ← next_entry m.world.reader.image dirent
      walk_entries fuel path end next m'
    in if leb end dirent then done m else round

unfoldable pub walk_dir : ℕ → Bytes → ℕ → Ext2Mount → Outcome Ext2Mount
walk_dir fuel path n m = do
  let r = m.world.reader
  begin ← read_block r.block_size n
  walk_entries fuel path (begin + r.block_size) begin m

abbrev pub ext4_feature_incompat_filetype : ℕ
ext4_feature_incompat_filetype = 2

abbrev pub assert_eq : ℕ → ℕ → Outcome (Unit {0})
assert_eq a b = if a == b then done tt else undefined

-- The constructor up to the root directory.
unfoldable pub open_image : Bytes → Outcome Reader
open_image image = do
  let s = superblock_location
  m ← magic image s
  _ ← assert_eq m 0xef53
  f ← feature_incompat image s
  _ ← assert_eq (bit_and f ext4_feature_incompat_filetype) ext4_feature_incompat_filetype
  _ ← assert_eq (bit_and f 0xfffffffd) 0
  size ← block_size_of image s
  table ← read_block size (block_group_descriptor_table_block_number size)
  per_group ← inodes_per_group_of image s
  inode_bytes ← inode_size_of image s
  done (record {
    image = image;
    block_size = size;
    inodes_per_group = per_group;
    inode_size = inode_bytes;
    group_desc_table = table;
  })

-- The constructor, with the contents of the mapped file.
unfoldable pub construct : ℕ → Bytes → Outcome Ext2Mount
construct fuel image = do
  r ← open_image image
  root ← inode r 2
  bits ← mode r.image root
  _ ← assert_eq bits 0x41ed
  n ← block r.image root 0
  walk_dir fuel (codes "/") n (record {
    container = empty_container;
    world = record { reader = r; inode_cache = λ i. none };
  })

unfoldable pub load_directory : ℕ → Bytes → Outcome Ext2Mount
unfolding construct
load_directory fuel image = construct fuel image

unfoldable pub fs_getattr :
    Ext2Mount → Bytes → Option (Option ℕ) → Stat → Outcome (Result Stat × Ext2Mount)
fs_getattr m path fi stbuf = Adapter.fs_getattr ext2_file m path fi stbuf

unfoldable pub fs_opendir : Ext2Mount → Bytes → Option ℕ → Outcome (Result (Unit {0}) × Option ℕ)
fs_opendir m path fh = open_directory ext2_file m path fh

unfoldable pub fs_releasedir : Option ℕ → Result (Unit {0})
fs_releasedir fh = Adapter.fs_releasedir fh

unfoldable pub fs_readdir : Ext2Mount → Option ℕ → Outcome (Result (Unit {0}) × List Bytes)
fs_readdir m fh = Adapter.fs_readdir m.container fh

unfoldable pub fs_open :
    Ext2Mount → Bytes → Option ℕ → Outcome (Result (Unit {0}) × Option ℕ × Ext2Mount)
fs_open m path fh = open_path ext2_file m path fh

unfoldable pub fs_read : Ext2Mount → Option ℕ → ℕ → ℕ → Outcome (Result Bytes × Ext2Mount)
fs_read m fh size offset = Adapter.fs_read ext2_file m fh size offset

unfoldable pub fs_readlink : Ext2Mount → Bytes → ℕ → Outcome (Result Bytes × Ext2Mount)
fs_readlink m path size = readlink_path ext2_file m path size
