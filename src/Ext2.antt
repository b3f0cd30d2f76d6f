-- ===== src/Ext2.antt =====
-- experimental/ext2.cc and experimental/linux_ext2.h: the files of an ext2 image as a file system. The
-- mapped image is a list of bytes, and a pointer into it is an offset; a pointer before its start and
-- a read behind its end are undefined behaviour, and a failed assertion counts as such.
pub mod File
pub mod Load
pub mod Copying
pub mod Blocks
pub mod Reading
pub mod Walked
mod Tests
use Prim.Native.Nat.{bit_and}
use gitlstreefs.Base.{
  ℕ, ◌+◌, ◌-◌, ◌*◌, ◌/◌, ◌%◌, ◌^◌, Bool, ◌&&◌, ltb, leb, ◌==◌, if◌then◌else◌, Bytes, get_elem?,
  length, substr,
}
use gitlstreefs.Base.Outcome.{Outcome, done, undefined, defined, ◌>>=◌}

unfoldable pub u8 : Bytes → ℕ → Outcome ℕ
u8 image p = defined (get_elem? image p)

-- `Le16::get` and `Le32::get`.
unfoldable pub le16 : Bytes → ℕ → Outcome ℕ
unfolding u8
le16 image p = do a ← u8 image p; b ← u8 image (p + 1); done (a + 256 * b)

unfoldable pub le32 : Bytes → ℕ → Outcome ℕ
unfolding le16
le32 image p = do a ← le16 image p; b ← le16 image (p + 2); done (a + 65536 * b)

-- What `memcpy` of `n` bytes copies.
unfoldable pub bytes_at : Bytes → ℕ → ℕ → Outcome Bytes
bytes_at image p n = if leb (p + n) (length image) then done (substr image p n) else undefined

-- The numbers of `ext4_super_block` that are used, at the place of the block.
abbrev pub log_block_size : Bytes → ℕ → Outcome ℕ
log_block_size image s = le32 image (s + 24)

abbrev pub inodes_per_group_of : Bytes → ℕ → Outcome ℕ
inodes_per_group_of image s = le32 image (s + 40)

abbrev pub magic : Bytes → ℕ → Outcome ℕ
magic image s = le16 image (s + 56)

abbrev pub inode_size_of : Bytes → ℕ → Outcome ℕ
inode_size_of image s = le16 image (s + 88)

abbrev pub feature_incompat : Bytes → ℕ → Outcome ℕ
feature_incompat image s = le32 image (s + 96)

-- The shift is one of an `int`.
unfoldable pub block_size_of : Bytes → ℕ → Outcome ℕ
block_size_of image s =
    log_block_size image s >>= λ k. if ltb k 21 then done (1024 * 2 ^ k) else undefined

abbrev pub superblock_location : ℕ
superblock_location = 1024

unfoldable pub block_group_descriptor_table_block_number : ℕ → ℕ
block_group_descriptor_table_block_number block_size = superblock_location / block_size + 1

-- `Ext2Reader`, with what it reads of the superblock.
pub record Reader : Type 0 where
  pub image : Bytes
  pub block_size : ℕ
  pub inodes_per_group : ℕ
  pub inode_size : ℕ
  pub group_desc_table : ℕ

-- A `size_t` cast to `int`: the number, if it is not negative.
abbrev pub read_block : ℕ → ℕ → Outcome ℕ
read_block block_size k =
    let n = k % 2 ^ 32 in if ltb n (2 ^ 31) then done (n * block_size) else undefined

-- The product is one of `int`.
unfoldable pub group_desc : Reader → ℕ → Outcome ℕ
group_desc r k =
    let n = k % 2 ^ 32 in
    let back = 32 * (2 ^ 32 - n) in
    if ltb n (2 ^ 26)
    then done (r.group_desc_table + 32 * n)
    else if leb (2 ^ 32 - 2 ^ 26) n && leb back r.group_desc_table
    then done (r.group_desc_table - back)
    else undefined

-- `inode_number - 1` of an `int` as a `size_t`.
unfoldable pub before : ℕ → Outcome ℕ
before n =
    if n == 0
    then done (2 ^ 64 - 1)
    else if ltb n (2 ^ 31)
    then done (n - 1)
    else if n == 2 ^ 31
    then undefined
    else done (2 ^ 64 - 2 ^ 32 + n - 1)

-- `Inode`: where the inode stands.
unfoldable pub inode : Reader → ℕ → Outcome ℕ
inode r inode_number = if r.inodes_per_group == 0 then undefined else do
  n ← before inode_number
  let index = n % r.inodes_per_group
  let containing_block = index * r.inode_size / r.block_size
  let index_inside_block = index * r.inode_size % r.block_size
  group ← group_desc r (n / r.inodes_per_group)
  inode_table_lo ← le32 r.image (group + 8)
  block ← read_block r.block_size (inode_table_lo + containing_block)
  done (block + index_inside_block)

-- The numbers of `ext4_inode` that are used.
abbrev pub mode : Bytes → ℕ → Outcome ℕ
mode image i = le16 image i

abbrev pub size_lo : Bytes → ℕ → Outcome ℕ
size_lo image i = le32 image (i + 4)

abbrev pub block_area : ℕ → ℕ
block_area i = i + 40

abbrev pub block : Bytes → ℕ → ℕ → Outcome ℕ
block image i k = le32 image (block_area i + 4 * k)

-- `ext4_dir_entry_2`.
abbrev pub entry_inode : Bytes → ℕ → Outcome ℕ
entry_inode image dirent = le32 image dirent

unfoldable pub filename : Bytes → ℕ → Outcome Bytes
filename image dirent = u8 image (dirent + 6) >>= λ name_len. bytes_at image (dirent + 8) name_len

unfoldable pub next_entry : Bytes → ℕ → Outcome ℕ
next_entry image dirent = le16 image (dirent + 4) >>= λ rec_len. done (dirent + rec_len)
