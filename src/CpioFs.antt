-- ===== src/CpioFs.antt =====
-- cpiofs.cc: the files of a cpio archive ("newc") as a file system. A `CpioHeader` pointer is the
-- part of the mapped file from the header on; reading behind the end of the file is undefined
-- behaviour. An `int32_t` is its bit pattern, below 2 ^ 32.
pub mod File
pub mod Load
pub mod Header
pub mod Archive
pub mod Loaded
pub mod Links
pub mod Devices
mod Tests
use Prim.Native.Nat.{bit_and}
use gitlstreefs.Base.{
  ℕ, zero, suc, ◌+◌, ◌-◌, ◌*◌, ◌%◌, ◌^◌, Bool, true, false, not, ◌&&◌, ◌||◌, Option, none, some,
  List, [], ◌∷◌, ◌++◌, ltb, ◌==◌, if◌then◌else◌, Bytes, bytes_eq, codes, take, drop, length, strtol,
}
use gitlstreefs.Base.Outcome.{Outcome, done, undefined, out_of_fuel, defined, ◌>>=◌}
use gitlstreefs.Container.{leaf, DirectoryContainer, add}
use gitlstreefs.Fuse.{Result, ok, enosys, error, Stat, s_ifreg, s_iflnk, FileClass, Mount}
use gitlstreefs.Fuse.Window.{window, link_text}
use gitlstreefs.Fuse.Adapter
use gitlstreefs.Fuse.Callbacks.{open_directory, open_path, readlink_path}

-- The bit pattern of a `long` cast to `int32_t`.
abbrev pub int32 : Bool × ℕ → ℕ
int32 (negative, n) = if negative then (2 ^ 32 - n % 2 ^ 32) % 2 ^ 32 else n % 2 ^ 32

-- `Number::get` of the number at the offset; a header has 110 bytes.
unfoldable pub number : ℕ → Bytes → ℕ
number offset header = int32 (strtol (take 8 (drop offset header)) 16)

abbrev pub ino : Bytes → ℕ
ino = number 6

abbrev pub mode : Bytes → ℕ
mode = number 14

abbrev pub nlink : Bytes → ℕ
nlink = number 38

abbrev pub filesize : Bytes → ℕ
filesize = number 54

abbrev pub major : Bytes → ℕ
major = number 62

abbrev pub minor : Bytes → ℕ
minor = number 70

abbrev pub namesize : Bytes → ℕ
namesize = number 94

-- What follows the numbers.
abbrev pub end_of : Bytes → Bytes
end_of header = drop 110 header

unfoldable pub check_header : Bytes → Outcome Bool
check_header header =
    if ltb (length header) 6 then undefined else done (bytes_eq (take 6 header) (codes "070701"))

-- `size` bytes at `offset` behind the header.
unfoldable pub view : Bytes → ℕ → ℕ → Outcome Bytes
view header offset size =
    if ltb (length header) (110 + offset + size)
    then undefined
    else done (take size (drop offset (end_of header)))

-- `FileName`; a size of 0 and a negative one make the view as good as endless.
unfoldable pub file_name : Bytes → Outcome Bytes
file_name header =
    if ltb (length header) 110
    then undefined
    else if namesize header == 0 || not (ltb (namesize header) (2 ^ 31))
    then undefined
    else view header 0 (namesize header - 1)

unfoldable pub padded : ℕ → ℕ
padded n = n + (4 - (n + 2) % 4) % 4

-- `ContentsOffset`, where the sizes are not negative.
unfoldable pub contents_offset : Bytes → ℕ
contents_offset header = padded (namesize header)

unfoldable pub contents : Bytes → Outcome Bytes
contents header =
    if ltb (filesize header) (2 ^ 31)
    then view header (contents_offset header) (filesize header)
    else undefined

-- `EndOffset`; a sum that does not fit is undefined behaviour.
unfoldable pub end_offset : Bytes → Outcome ℕ
end_offset header =
    let n = padded (contents_offset header + filesize header) in
    if ltb n (2 ^ 31) then done n else undefined

unfoldable pub next_header : Bytes → Outcome Bytes
next_header header = end_offset header >>= λ n. done (drop n (end_of header))

pub record HardlinkKey : Type 0 where
  pub key_major : ℕ
  pub key_minor : ℕ
  pub key_inode : ℕ

-- `<` of two `int32_t`.
abbrev pub int32_less : ℕ → ℕ → Bool
int32_less a b = ltb ((a + 2 ^ 31) % 2 ^ 32) ((b + 2 ^ 31) % 2 ^ 32)

-- `operator<`.
unfoldable pub key_less : HardlinkKey → HardlinkKey → Bool
key_less a b =
    int32_less a.key_major b.key_major
    || int32_less a.key_minor b.key_minor
    || int32_less a.key_inode b.key_inode

abbrev pub key_of_header : Bytes → HardlinkKey
key_of_header header = record {
  key_major = major header;
  key_minor = minor header;
  key_inode = ino header;
}

abbrev pub HardlinkMap : Type 0
HardlinkMap = List (HardlinkKey × Bytes)

abbrev pub all_of : {A : Type 0} → (A → Bool) → List A → Bool
all_of test [] = true
all_of test (x ∷ xs) = test x && all_of test xs

-- What `std::map` asks of three keys: of two at most one is less, and `<` is transitive. Keys of
-- which none is less are one key to the map.
unfoldable pub in_order : HardlinkKey → HardlinkKey → HardlinkKey → Bool
in_order a b c =
    not (key_less a b && key_less b a) && (not (key_less a b && key_less b c) || key_less a c)

-- `operator<` orders the keys; the behaviour of a map whose keys it does not order is undefined.
unfoldable pub are_ordered : List HardlinkKey → Bool
unfolding in_order
are_ordered keys = all_of (λ a. all_of (λ b. all_of (λ c. in_order a b c) keys) keys) keys

abbrev pub keys_of : HardlinkMap → List HardlinkKey
keys_of [] = []
keys_of ((k, header) ∷ m) = k ∷ keys_of m

unfoldable pub equivalent : HardlinkKey → HardlinkKey → Bool
equivalent a b = not (key_less a b) && not (key_less b a)

unfoldable pub search : HardlinkKey → HardlinkMap → Option Bytes
unfolding equivalent
search key [] = none
search key ((k, header) ∷ m) = if equivalent k key then some header else search key m

unfoldable pub replace : HardlinkKey → Bytes → HardlinkMap → HardlinkMap
unfolding equivalent
replace key header [] = (key, header) ∷ []
replace key header ((k, h) ∷ m) =
    let rest = replace key header m in if equivalent k key then (k, header) ∷ m else (k, h) ∷ rest

-- `hardlink_map[key]` where it is read; the null pointer that is made for a missing key is used at
-- once.
unfoldable pub find_link : HardlinkKey → HardlinkMap → Outcome Bytes
unfolding are_ordered search
find_link key m = if are_ordered (key ∷ keys_of m) then defined (search key m) else undefined

-- `hardlink_map[key] = header`.
unfoldable pub assign_link : HardlinkKey → Bytes → HardlinkMap → Outcome HardlinkMap
unfolding are_ordered replace
assign_link key header m =
    if are_ordered (key ∷ keys_of m) then done (replace key header m) else undefined
