-- ===== src/Ext2/File.antt =====
-- `FileContent`, `GetFileContent`, `InodeCache` and `Ext2File` of ext2.cc.
use gitlstreefs.Base.{
  ℕ, zero, suc, ◌+◌, ◌-◌, ◌*◌, ◌/◌, ◌%◌, ◌^◌, min, Bool, ◌&&◌, not, ltb, leb, ◌==◌, Option, none,
  some, List, [], ◌∷◌, ◌++◌, if◌then◌else◌, Bytes, drop,
}
use gitlstreefs.Base.Outcome.{Outcome, done, undefined, ◌>>=◌}
use gitlstreefs.Container.{update}
use gitlstreefs.Fuse.{Result, ok, Stat, FileClass}
use gitlstreefs.Ext2.{Reader, le32, bytes_at, read_block, mode, size_lo, block, block_area}

-- `blocks` are the places of the blocks in the image.
pub record FileContent : Type 0 where
  pub content_size : ℕ
  pub blocks : List ℕ

-- The three loops of `GetFileContent`; `count` rounds are left, from `i` on, and what is appended is
-- returned.
unfoldable pub direct_blocks : Reader → ℕ → ℕ → ℕ → ℕ → Outcome (List ℕ)
direct_blocks r at actual_blocks zero i = done []
direct_blocks r at actual_blocks (suc count) i = do
  n ← block r.image at i
  place ←
      (if not (n == 0) && ltb i actual_blocks
        then (read_block r.block_size n >>= λ p. done (p ∷ []))
        else done [])
  rest ← direct_blocks r at actual_blocks count (suc i)
  done (place ++ rest)

unfoldable pub indirect_blocks : Reader → ℕ → ℕ → ℕ → Outcome (List ℕ)
indirect_blocks r a zero i = done []
indirect_blocks r a (suc count) i = do
  n ← le32 r.image (a + 4 * i)
  p ← read_block r.block_size n
  rest ← indirect_blocks r a count (suc i)
  done (p ∷ rest)

unfoldable pub doubly_indirect_blocks : Reader → ℕ → ℕ → ℕ → ℕ → Outcome (List ℕ)
doubly_indirect_blocks r indirect a zero i = done []
doubly_indirect_blocks r indirect a (suc count) i = do
  k ← le32 r.image (a + 4 * (i / indirect))
  b ← read_block r.block_size k
  n ← le32 r.image (b + 4 * (i % indirect))
  place ← (if n == 0 then done [] else (read_block r.block_size n >>= λ p. done (p ∷ [])))
  rest ← doubly_indirect_blocks r indirect a count (suc i)
  done (place ++ rest)

-- The second and the third part of the blocks.
unfoldable pub first_level : Reader → ℕ → ℕ → ℕ → Outcome (List ℕ)
first_level r at indirect actual_blocks =
    if leb 12 actual_blocks
    then (do
      n ← block r.image at 12
      a ← read_block r.block_size n
      indirect_blocks r a (min indirect (actual_blocks - 12)) 0)
    else done []

unfoldable pub second_level : Reader → ℕ → ℕ → ℕ → Outcome (List ℕ)
second_level r at indirect actual_blocks =
    if leb (12 + indirect) actual_blocks
    then (do
      n ← block r.image at 13
      a ← read_block r.block_size n
      doubly_indirect_blocks r indirect a
          (min (indirect * indirect) (actual_blocks - 12 - indirect)) 0)
    else done []

-- The failed assertion stands for what is not implemented.
unfoldable pub get_file_content : Reader → ℕ → Outcome FileContent
get_file_content r at = do
  size ← size_lo r.image at
  let actual_blocks = (size + r.block_size - 1) / r.block_size
  let indirect = r.block_size / 4
  direct ← direct_blocks r at actual_blocks 12 0
  single ← first_level r at indirect actual_blocks
  double ← second_level r at indirect actual_blocks
  if leb (12 + indirect + indirect * indirect) actual_blocks
      then undefined
      else done (record { content_size = size; blocks = direct ++ (single ++ double) })

-- The part of `FileContent::copy` behind the first block: `remaining` bytes from the blocks that are
-- left on. `blocks[b]` behind the last block is undefined behaviour.
unfoldable pub copy_blocks : Reader → List ℕ → ℕ → Outcome Bytes
copy_blocks r [] remaining = if remaining == 0 then done [] else undefined
copy_blocks r (p ∷ ps) remaining =
    let more : Outcome Bytes = do
      text ← bytes_at r.image p r.block_size
      rest ← copy_blocks r ps (remaining - r.block_size)
      done (text ++ rest)
    in if ltb r.block_size remaining
      then more
      else if remaining == 0
      then done []
      else bytes_at r.image p remaining

-- The difference is one of `size_t`.
unfoldable pub to_copy : ℕ → ℕ → ℕ
to_copy remaining inside = min remaining ((remaining + 2 ^ 64 - inside) % 2 ^ 64)

unfoldable pub copy_first : Reader → List ℕ → ℕ → ℕ → Outcome Bytes
copy_first r [] remaining inside = undefined
copy_first r (p ∷ ps) remaining inside = do
  let n = to_copy remaining inside
  text ← bytes_at r.image (p + inside) n
  rest ← copy_blocks r ps (remaining - n)
  done (text ++ rest)

-- `FileContent::copy`: what is written to the target.
unfoldable pub copy : Reader → FileContent → ℕ → ℕ → Outcome Bytes
copy r content remaining offset =
    let left = drop (offset / r.block_size) content.blocks in
    let inside = offset % r.block_size in
    if inside == 0 then copy_blocks r left remaining else copy_first r left remaining inside

-- The globals: the reader, and `inode_cache_`, by the place of the inode.
pub record World : Type 0 where
  pub reader : Reader
  pub inode_cache : ℕ → Option (Option FileContent)

-- `CachedFileContent`; an `InodeCache` that is not there is a dangling pointer.
unfoldable pub cached_file_content : ℕ → World → Outcome (FileContent × World)
cached_file_content at w = elim (w.inode_cache at) [
  | none ↦ undefined
  | some (some content) ↦ done (content, w)
  | some none ↦ get_file_content w.reader at >>= λ content.
      done (content, record w { inode_cache = update w.inode_cache at (some (some content)) })
]

-- `Ext2File`: the place of its inode.
abbrev pub Ext2File : Type 0
Ext2File = ℕ

unfoldable pub getattr : Ext2File → World → Stat → Outcome (Stat × Ext2File × World)
getattr at w stbuf = do
  m ← mode w.reader.image at
  n ← size_lo w.reader.image at
  done (record stbuf { mode = m; size = n }, at, w)

unfoldable pub read : Ext2File → World → ℕ → ℕ → Outcome (Result Bytes × Ext2File × World)
read at w size offset = do
  (contents, w') ← cached_file_content at w
  let fit =
      if ltb contents.content_size (offset + size) then contents.content_size - offset else size
  text ← (if ltb offset contents.content_size then copy w'.reader contents fit offset else done [])
  done (ok text, at, w')

-- The text, with the zero that is put behind it.
abbrev pub finished : Bool → Bytes → Bytes
finished end text = if end then text ++ 0 ∷ [] else text

unfoldable pub readlink : Ext2File → World → ℕ → Outcome (Result Bytes × Ext2File × World)
readlink at w size = do
  contents_size ← size_lo w.reader.image at
  (contents, w') ← cached_file_content at w
  let n = if ltb contents_size size then contents_size else size
  text ←
      (if ltb 60 contents_size
        then copy w'.reader contents n 0
        else bytes_at w'.reader.image (block_area at) n)
  done (ok (finished (ltb contents_size size) text), at, w')

unfoldable pub ext2_file : FileClass Ext2File World
ext2_file = record {
  getattr = getattr;
  open_file = λ f w. done (ok tt, f, w);
  read = read;
  readlink = readlink;
  release = λ f w. done (ok tt, f, w);
}
