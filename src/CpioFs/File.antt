-- ===== src/CpioFs/File.antt =====
-- `CpioFile` of cpiofs.cc.
use gitlstreefs.Base.{ℕ, Option, none, some, ◌==◌, if◌then◌else◌, Bytes}
use gitlstreefs.Base.Outcome.{Outcome, done, undefined, ◌>>=◌}
use gitlstreefs.Fuse.{Result, ok, Stat, FileClass}
use gitlstreefs.Fuse.Window.{window, link_text}
use gitlstreefs.CpioFs.{mode, filesize, contents, int32_less, key_of_header, HardlinkMap, find_link}

-- The file: `c_`, `nlink_`, and `t_` with `none` for the null pointer.
pub record CpioFile : Type 0 where
  pub header : Bytes
  pub links : ℕ
  pub target : Option Bytes

unfoldable pub find_target : CpioFile → HardlinkMap → Outcome Bytes
find_target f m =
    if filesize f.header == 0 then find_link (key_of_header f.header) m else done f.header

unfoldable pub resolve_hardlink : CpioFile → HardlinkMap → Outcome (Bytes × CpioFile)
resolve_hardlink f m = if f.links == 1 then done (f.header, f) else elim f.target [
  | some t ↦ done (t, f)
  | none ↦
      if int32_less 1 f.links
      then (find_target f m >>= λ t. done (t, record f { target = some t }))
      else undefined
]

unfoldable pub getattr : CpioFile → HardlinkMap → Stat → Outcome (Stat × CpioFile × HardlinkMap)
getattr f m stbuf = resolve_hardlink f m >>= λ (c, g).
    done (record stbuf { mode = mode f.header; size = filesize c }, g, m)

unfoldable pub read :
    CpioFile → HardlinkMap → ℕ → ℕ → Outcome (Result Bytes × CpioFile × HardlinkMap)
read f m size offset = do
  (c, g) ← resolve_hardlink f m
  text ← contents c
  done (ok (window text size offset), g, m)

unfoldable pub readlink :
    CpioFile → HardlinkMap → ℕ → Outcome (Result Bytes × CpioFile × HardlinkMap)
readlink f m size = do text ← contents f.header; done (ok (link_text text size), f, m)

unfoldable pub cpio_file : FileClass CpioFile HardlinkMap
cpio_file = record {
  getattr = getattr;
  open_file = λ f m. done (ok tt, f, m);
  read = read;
  readlink = readlink;
  release = λ f m. done (ok tt, f, m);
}
