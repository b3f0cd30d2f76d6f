-- ===== src/Ext2/Tests.antt =====
-- An image with one file in the root directory, and the theorems at it.
use gitlstreefs.Base.{
  ℕ, zero, suc, ◌≡◌, refl, ◌+◌, ◌*◌, ◌^◌, ◌<◌, arith, Bool, true, false, ◌&&◌, ◌==◌, ap, none, some,
  inl, [], ◌∷◌, ◌++◌, Bytes, bytes_eq, codes, take, substr,
}
use gitlstreefs.Base.Outcome.{Outcome, done, undefined, out_of_fuel}
use gitlstreefs.Fuse.{ok}
use gitlstreefs.Fuse.Window.{window}
use gitlstreefs.Ext2.{
  Reader, u8, le16, le32, bytes_at, block_size_of, block_group_descriptor_table_block_number,
  group_desc, before, inode, filename, next_entry,
}
use gitlstreefs.Ext2.File.{World, copy, read}
use gitlstreefs.Ext2.Load.{open_image, load_directory}
use gitlstreefs.Ext2.Copying.{copy_inside, text_of}
use gitlstreefs.Ext2.Blocks.{IsFile, block_number, content_of, places, blocks_for}
use gitlstreefs.Ext2.Reading.{read-aligned}
use gitlstreefs.Ext2.Walked.{
  Entries, IsExt2, finish, dots, file, Stored, IsRoot, add_files, empty_mount,
  load_directory-Stored,
}

abbrev zeros : ℕ → Bytes
zeros zero = []
zeros (suc n) = 0 ∷ zeros n

-- One block group of eight inodes of 128 bytes each; the table of inodes is block 3.
abbrev superblock : Bytes
superblock =
    zeros 40
    ++ 8 ∷ 0 ∷ 0 ∷ 0 ∷ zeros 12
    ++ 0x53 ∷ 0xef ∷ zeros 30
    ++ 128 ∷ 0 ∷ zeros 6
    ++ 2 ∷ zeros 927

abbrev group : Bytes
group = zeros 8 ++ 3 ∷ zeros 1015

-- A directory whose block is 4, and a file of 15 bytes whose block is 5.
abbrev inodes : Bytes
inodes =
    zeros 128
    ++ 0xed ∷ 0x41 ∷ zeros 38
    ++ 4 ∷ zeros 87
    ++ 0xa4 ∷ 0x81 ∷ 0 ∷ 0 ∷ 15 ∷ zeros 35
    ++ 5 ∷ zeros 727

abbrev folder_block : Bytes
folder_block =
    2
    ∷ 0
    ∷ 0
    ∷ 0
    ∷ 12
    ∷ 0
    ∷ 1
    ∷ 2
    ∷ b'.'
    ∷ 0
    ∷ 0
    ∷ 0
    ∷ 3
    ∷ 0
    ∷ 0
    ∷ 0
    ∷ 0xf4
    ∷ 3
    ∷ 1
    ∷ 1
    ∷ b'f'
    ∷ zeros 1003

abbrev image : Bytes
image =
    zeros 1024
    ++ (superblock
        ++ (group ++ (inodes ++ (folder_block ++ (codes "hello, blocks.\n" ++ zeros 1009)))))

abbrev reader : Reader
reader = record {
  image = image;
  block_size = 1024;
  inodes_per_group = 8;
  inode_size = 128;
  group_desc_table = 2048;
}

opens : open_image image ≡ done reader
unfolding open_image u8 le16 le32 block_size_of block_group_descriptor_table_block_number
opens = refl

reader-IsRoot : IsRoot reader 3200 4
unfolding inode before group_desc u8 le16 le32
reader-IsRoot = record { second = refl; folder_mode = refl; first_block = refl; fits = omega arith }

abbrev entries : Entries
entries = dots (file (codes "f") 3328 finish)

entries-Stored : Stored reader 5120 4096 entries
unfolding inode before group_desc u8 le16 le32 filename next_entry bytes_at bytes_eq
entries-Stored = (
  codes ".",
  4108,
  omega arith,
  refl,
  refl,
  refl,
  (
    5120,
    omega arith,
    record { named = refl; number = 3; numbered = refl; placed = refl; followed = refl },
    refl,
    (0x81a4, refl, refl),
    omega arith,
  ),
)

load_directory-Stored_example :
    (load_directory 3 image ≡ add_files (codes "/") entries (empty_mount reader)) × IsExt2 image
load_directory-Stored_example =
    load_directory-Stored image reader 3200 4 3 entries opens reader-IsRoot entries-Stored
      (omega arith)

abbrev number : ℕ → ℕ
number i = 5

abbrev is_zero : Outcome ℕ → Bool
is_zero (done n) = n == 0
is_zero undefined = false
is_zero out_of_fuel = false

is_zero-done : (o : Outcome ℕ) → is_zero o ≡ true → o ≡ done 0
is_zero-done (done n) h = let e : n ≡ 0 = ground arith in ap (λ k. done k) e
is_zero-done undefined h = cc h
is_zero-done out_of_fuel h = cc h

-- The values at `p` and the `n - 1` places behind it, four bytes apart, are 0.
zeros_from : Bytes → ℕ → ℕ → Bool
zeros_from b zero p = true
zeros_from b (suc n) p = is_zero (le32 b p) && zeros_from b n (p + 4)

both : (a b : Bool) → (a && b) ≡ true → (a ≡ true) × (b ≡ true)
both a b h = ground arith

zeros_from-done :
    (b : Bytes) (n p i : ℕ) → zeros_from b n p ≡ true → i < n → le32 b (p + 4 * i) ≡ done 0
unfolding zeros_from
zeros_from-done b zero p i h l = absurd (omega arith)
zeros_from-done b (suc n) p zero h l =
    let place : p + 4 * 0 ≡ p = omega arith in
    rw place (is_zero-done (le32 b p) (both (is_zero (le32 b p)) (zeros_from b n (p + 4)) h).0)
zeros_from-done b (suc n) p (suc i) h l =
    let place : p + 4 * suc i ≡ p + 4 + 4 * i = omega arith in
    rw place (
      zeros_from-done b n (p + 4) i (both (is_zero (le32 b p)) (zeros_from b n (p + 4)) h).1
        (omega arith))

no_more : zeros_from image 14 3372 ≡ true
unfolding zeros_from u8 le16 le32
no_more = refl

entry-known : (i : ℕ) → i < 15 → (n : ℕ) × (le32 image (3328 + 40 + 4 * i) ≡ done n) × (n < 2 ^ 31)
unfolding u8 le16 le32
entry-known zero l = (5, refl, omega arith)
entry-known (suc i) l =
    let place : 3328 + 40 + 4 * suc i ≡ 3372 + 4 * i = omega arith in
    (0, rw place (zeros_from-done image 14 3372 i no_more (omega arith)), omega arith)

numbered : (i : ℕ) → i < blocks_for reader 15 → block_number reader 3328 i ≡ done (number i)
unfolding u8 le16 le32
numbered zero l = refl
numbered (suc i) l = absurd (omega arith)

f-IsFile : IsFile reader 3328 15 number
unfolding u8 le16 le32
f-IsFile = record {
  sized = refl;
  entry = entry-known;
  numbered = numbered;
  indirect = λ k n e l. absurd (omega arith);
  present = λ i l. (omega arith, omega arith);
  small = omega arith;
}

abbrev world : World
world = record { reader = reader; inode_cache = λ i. some none }

read-aligned_example :
    (w' : World) × (read 3328 world 5 0
      ≡ done (
        ok (window (take 15 (text_of reader (places number 1024 (blocks_for reader 15) 0))) 5 0),
        3328,
        w',
      ))
    × (w'.inode_cache 3328 ≡ some (some (content_of reader 15 number)))
    × (w'.reader ≡ reader)
read-aligned_example =
    read-aligned world 3328 15 number f-IsFile (λ i l. omega arith) (omega arith) 5 0 none refl
      (inl refl) refl

copy_inside_example :
    copy reader (record { content_size = 2048; blocks = 5120 ∷ 4096 ∷ [] }) 6 4
    ≡ done (substr image 5124 2 ++ substr image 4096 4)
copy_inside_example =
    copy_inside reader (record { content_size = 2048; blocks = 5120 ∷ 4096 ∷ [] }) 6 4 5120 4096 []
      refl (omega arith) (omega arith) (omega arith) (omega arith) (omega arith) (omega arith)
