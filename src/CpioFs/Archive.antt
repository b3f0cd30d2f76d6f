-- ===== src/CpioFs/Archive.antt =====
-- The "newc" format of cpio as its description has it: a header of thirteen numbers in eight
-- hexadecimal digits each, the name with a zero behind it, and the contents, both filled up with
-- zeros to a multiple of four bytes.
use gitlstreefs.Base.{
  ℕ, zero, suc, ◌≡◌, ◌+◌, ◌-◌, ◌%◌, ◌^◌, ◌<◌, false, List, [], ◌∷◌, ◌++◌, Bytes, bytes_eq, codes,
  length, hex8,
}
use gitlstreefs.CpioFs.{HardlinkKey}

pub record Entry : Type 0 where
  pub e_ino : ℕ
  pub e_mode : ℕ
  pub e_uid : ℕ
  pub e_gid : ℕ
  pub e_nlink : ℕ
  pub e_mtime : ℕ
  pub e_major : ℕ
  pub e_minor : ℕ
  pub e_rmajor : ℕ
  pub e_rminor : ℕ
  pub e_check : ℕ
  pub e_name : Bytes
  pub e_contents : Bytes

abbrev pub key_of_entry : Entry → HardlinkKey
key_of_entry e = record { key_major = e.e_major; key_minor = e.e_minor; key_inode = e.e_ino }

abbrev pub zeros : ℕ → Bytes
zeros zero = []
zeros (suc n) = 0 ∷ zeros n

-- What `n` lacks to a multiple of four.
abbrev pub fill_up : ℕ → Bytes
fill_up n = zeros ((4 - n % 4) % 4)

abbrev pub encode_header : Entry → Bytes → Bytes
encode_header e rest =
    codes "070701"
    ++ hex8 e.e_ino
    ++ hex8 e.e_mode
    ++ hex8 e.e_uid
    ++ hex8 e.e_gid
    ++ hex8 e.e_nlink
    ++ hex8 e.e_mtime
    ++ hex8 (length e.e_contents)
    ++ hex8 e.e_major
    ++ hex8 e.e_minor
    ++ hex8 e.e_rmajor
    ++ hex8 e.e_rminor
    ++ hex8 (suc (length e.e_name))
    ++ hex8 e.e_check
    ++ rest

abbrev pub encode_contents : Entry → Bytes → Bytes
encode_contents e rest = e.e_contents ++ (fill_up (length e.e_contents) ++ rest)

abbrev pub encode_body : Entry → Bytes → Bytes
encode_body e rest =
    e.e_name ++ ((0 ∷ fill_up (110 + suc (length e.e_name))) ++ encode_contents e rest)

abbrev pub encode : Entry → Bytes → Bytes
encode e rest = encode_header e (encode_body e rest)

-- The last header of an archive.
abbrev pub trailer : Entry
trailer = record {
  e_ino = 0;
  e_mode = 0;
  e_uid = 0;
  e_gid = 0;
  e_nlink = 1;
  e_mtime = 0;
  e_major = 0;
  e_minor = 0;
  e_rmajor = 0;
  e_rminor = 0;
  e_check = 0;
  e_name = codes "TRAILER!!!";
  e_contents = [];
}

abbrev pub archive : List Entry → Bytes
archive [] = encode trailer []
archive (e ∷ es) = encode e (archive es)

-- The numbers have 32 bits, the sizes fit an `int32_t`, and the name does not end the archive.
pub record IsEntry (e : Entry) : Type 0 where
  pub ino-IsWord : e.e_ino < 2 ^ 32
  pub mode-IsWord : e.e_mode < 2 ^ 32
  pub nlink-IsWord : e.e_nlink < 2 ^ 32
  pub major-IsWord : e.e_major < 2 ^ 32
  pub minor-IsWord : e.e_minor < 2 ^ 32
  pub fits : length e.e_name + length e.e_contents + 8 < 2 ^ 31
  pub unlike_trailer : bytes_eq e.e_name (codes "TRAILER!!!") ≡ false
