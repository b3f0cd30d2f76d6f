-- ===== src/CpioFs/Load.antt =====
-- `LoadDirectory` and the callbacks of cpiofs.cc.
use Prim.Native.Nat.{bit_and}
use gitlstreefs.Base.{
  ℕ, zero, suc, Bool, true, false, not, ◌&&◌, ◌||◌, Option, none, List, ◌∷◌, ◌==◌, if◌then◌else◌,
  Bytes, bytes_eq, codes, length,
}
use gitlstreefs.Base.Outcome.{Outcome, done, out_of_fuel, defined, ◌>>=◌}
use gitlstreefs.Container.{leaf, add}
use gitlstreefs.Fuse.{Result, Stat, s_ifreg, s_iflnk, Mount}
use gitlstreefs.Fuse.Adapter
use gitlstreefs.Fuse.Callbacks.{open_directory, open_path, readlink_path}
use gitlstreefs.CpioFs.{
  mode, nlink, filesize, check_header, file_name, next_header, int32_less, key_of_header,
  HardlinkMap, assign_link,
}
use gitlstreefs.CpioFs.File.{cpio_file, CpioFile}

abbrev pub CpioMount : Type 0
CpioMount = Mount CpioFile HardlinkMap

-- The case of `LoadDirectory` for a regular file or a symbolic link.
unfoldable pub load_file : Bytes → CpioMount → Outcome CpioMount
load_file header m = do
  name ← file_name header
  let file = leaf (record { header = header; links = nlink header; target = none })
  container ← defined (add m.container (b'/' ∷ name) file)
  let link = int32_less 1 (nlink header) && not (filesize header == 0)
  world ← (if link then assign_link (key_of_header header) header m.world else done m.world)
  done (record { container = container; world = world })

abbrev pub s_ifmt : ℕ
s_ifmt = 0xf000

-- The `switch`.
unfoldable pub load_header : Bytes → CpioMount → Outcome CpioMount
load_header header m =
    let type = bit_and (mode header) s_ifmt in
    if type == s_ifreg || type == s_iflnk then load_file header m else done m

-- The loop of `LoadDirectory`; a header has 110 bytes, which bounds the rounds.
unfoldable pub load_headers : ℕ → Bytes → CpioMount → Outcome (Bool × CpioMount)
load_headers zero header m = out_of_fuel
load_headers (suc fuel) header m =
    let round : Outcome (Bool × CpioMount) = do
      name ← file_name header
      if bytes_eq name (codes "TRAILER!!!")
          then done (true, m)
          else do m' ← load_header header m; next ← next_header header; load_headers fuel next m'
    in check_header header >>= λ good. if good then round else done (false, m)

-- `LoadDirectory`, with the contents of the mapped file.
unfoldable pub load_directory : Bytes → CpioMount → Outcome (Bool × CpioMount)
load_directory image m = load_headers (suc (length image)) image m

unfoldable pub fs_getattr :
    CpioMount → Bytes → Option (Option ℕ) → Stat → Outcome (Result Stat × CpioMount)
fs_getattr m path fi stbuf = Adapter.fs_getattr cpio_file m path fi stbuf

unfoldable pub fs_opendir : CpioMount → Bytes → Option ℕ → Outcome (Result (Unit {0}) × Option ℕ)
fs_opendir m path fh = open_directory cpio_file m path fh

unfoldable pub fs_releasedir : Option ℕ → Result (Unit {0})
fs_releasedir fh = Adapter.fs_releasedir fh

unfoldable pub fs_readdir : CpioMount → Option ℕ → Outcome (Result (Unit {0}) × List Bytes)
fs_readdir m fh = Adapter.fs_readdir m.container fh

unfoldable pub fs_open :
    CpioMount → Bytes → Option ℕ → Outcome (Result (Unit {0}) × Option ℕ × CpioMount)
fs_open m path fh = open_path cpio_file m path fh

unfoldable pub fs_read : CpioMount → Option ℕ → ℕ → ℕ → Outcome (Result Bytes × CpioMount)
fs_read m fh size offset = Adapter.fs_read cpio_file m fh size offset

unfoldable pub fs_readlink : CpioMount → Bytes → ℕ → Outcome (Result Bytes × CpioMount)
fs_readlink m path size = readlink_path cpio_file m path size
