-- ===== src/NinjaFs.antt =====
-- ninjafs.cc: the targets of a ninja build as files. `PopenAndReadOrDie2` and `ReadFromFileOrDie` are
-- parameters over what lies outside; `none` is their abort. The contents of the log stand in the
-- shared state, as the global pointer `ninja_log` reaches them. Sizes do not wrap.
pub mod Build
pub mod Mounted
mod Tests
use Prim.Native.Nat.{bit_or}
use gitlstreefs.Base.{
  ℕ, ◌*◌, Bool, true, false, not, Option, none, some, List, [], ◌∷◌, ◌++◌, ◌==◌, if◌then◌else◌,
  Bytes, codes, length,
}
use gitlstreefs.Base.Outcome.{Outcome, done, undefined, defined, ◌>>=◌}
use gitlstreefs.Paths.{is_absolute}
use gitlstreefs.Split.{split_string_using}
use gitlstreefs.Container.{leaf, DirectoryContainer, add}
use gitlstreefs.Fuse.{Errno, eio, enosys, Result, ok, error, Stat, s_ifreg, FileClass, Mount}
use gitlstreefs.Fuse.Adapter
use gitlstreefs.Fuse.Callbacks.{open_directory, open_path}
use gitlstreefs.Fuse.Window.{window}

-- `buf` is `buf_`, with `none` for the null pointer.
pub record NinjaTarget : Type 0 where
  pub original_target_name : Bytes
  pub buf : Option Bytes

pub data NinjaFile : Type 0 where
  ninja_log : NinjaFile
  ninja_target : NinjaTarget → NinjaFile

pub record World (S : Type 0) : Type 0 where
  pub log : Bytes
  pub outside : S

-- A line that does not have two elements is passed over.
unfoldable pub load_target :
    List Bytes → DirectoryContainer NinjaFile → Outcome (DirectoryContainer NinjaFile)
load_target (filename ∷ rule ∷ []) fs =
    if is_absolute filename
    then undefined
    else defined (
        add fs (b'/' ∷ filename)
          (leaf (ninja_target (record { original_target_name = filename; buf = none }))))
load_target _ fs = done fs

unfoldable pub load_targets :
    List Bytes → DirectoryContainer NinjaFile → Outcome (DirectoryContainer NinjaFile)
load_targets [] fs = done fs
load_targets (line ∷ lines) fs = do
  elements ← defined (split_string_using line b':' true)
  fs' ← load_target elements fs
  load_targets lines fs'

module _ {S : Type 0} (popen : List Bytes → S → Option (Bytes × ℕ × S))
    (read_file : Bytes → S → Option Bytes) (original_cwd : Bytes) where
  -- `NinjaLog::Read` and `NinjaTarget::Read`.
  unfoldable pub read : NinjaFile → World S → ℕ → ℕ → Outcome (Result Bytes × NinjaFile × World S)
  read ninja_log w size offset = done (ok (window w.log size offset), ninja_log, w)
  read (ninja_target t) w size offset =
      done (
        elim t.buf [ none ↦ error eio | some buf ↦ ok (window buf size offset) ],
        ninja_target t,
        w,
      )

  -- `NinjaLog::Getattr` and `NinjaTarget::Getattr`.
  unfoldable pub getattr : NinjaFile → World S → Stat → Outcome (Stat × NinjaFile × World S)
  getattr ninja_log w stbuf =
      done
        (record stbuf { mode = bit_or s_ifreg 0x16d; nlink = 1; size = length w.log }, ninja_log, w)
  getattr (ninja_target t) w stbuf =
      let size : ℕ = elim t.buf [ none ↦ 4096 * 1024 | some buf ↦ length buf ] in
      done (record stbuf { mode = bit_or s_ifreg 0x16d; nlink = 1; size = size }, ninja_target t, w)

  -- `NinjaTarget::Open` where there is no content yet.
  unfoldable pub build : NinjaTarget → World S → Outcome (Result (Unit {0}) × NinjaTarget × World S)
  build t w = do
    (log, exit_code, s) ← defined (popen (codes "ninja" ∷ t.original_target_name ∷ []) w.outside)
    let w' : World S = record { log = log; outside = s }
    if not (exit_code == 0) then done (error eio, t, w') else do
      text ← defined (read_file (original_cwd ++ b'/' ∷ t.original_target_name) s)
      done (ok tt, record t { buf = some text }, w')

  -- `Open` of both.
  unfoldable pub open_file : NinjaFile → World S → Outcome (Result (Unit {0}) × NinjaFile × World S)
  open_file ninja_log w = done (ok tt, ninja_log, w)
  open_file (ninja_target t) w = elim t.buf [
    | some buf ↦ done (ok tt, ninja_target t, w)
    | none ↦ build t w >>= λ (r, t', w'). done (r, ninja_target t', w')
  ]

  -- `Release` of both returns 0, and `File::Readlink` -ENOSYS.
  unfoldable pub ninja_file : FileClass NinjaFile (World S)
  ninja_file = record {
    getattr = getattr;
    open_file = open_file;
    read = read;
    readlink = λ f w size. done (error enosys, f, w);
    release = λ f w. done (ok tt, f, w);
  }

  -- `LoadDirectory`: the result, the container and what lies outside.
  unfoldable pub load_directory :
      DirectoryContainer NinjaFile → S → Outcome (Bool × DirectoryContainer NinjaFile × S)
  load_directory fs s = do
    fs1 ← defined (add fs (codes "/ninja.log") (leaf ninja_log))
    (ninja_targets, status, s1) ←
        defined (popen (codes "ninja" ∷ codes "-t" ∷ codes "targets" ∷ codes "all" ∷ []) s)
    if not (status == 0) then done (false, fs1, s1) else do
      lines ← defined (split_string_using ninja_targets b'\n' false)
      fs2 ← load_targets lines fs1
      done (true, fs2, s1)

  -- The callbacks.
  unfoldable pub fs_getattr :
      Mount NinjaFile (World S)
      → Bytes
      → Option (Option ℕ)
      → Stat
      → Outcome (Result Stat × Mount NinjaFile (World S))
  fs_getattr m path fi stbuf = Adapter.fs_getattr ninja_file m path fi stbuf

  unfoldable pub fs_opendir :
      Mount NinjaFile (World S) → Bytes → Option ℕ → Outcome (Result (Unit {0}) × Option ℕ)
  fs_opendir m path fh = open_directory ninja_file m path fh

  unfoldable pub fs_releasedir : Option ℕ → Result (Unit {0})
  fs_releasedir fh = Adapter.fs_releasedir fh

  unfoldable pub fs_readdir :
      Mount NinjaFile (World S) → Option ℕ → Outcome (Result (Unit {0}) × List Bytes)
  fs_readdir m fh = Adapter.fs_readdir m.container fh

  unfoldable pub fs_open :
      Mount NinjaFile (World S)
      → Bytes
      → Option ℕ
      → Outcome (Result (Unit {0}) × Option ℕ × Mount NinjaFile (World S))
  fs_open m path fh = open_path ninja_file m path fh

  unfoldable pub fs_read :
      Mount NinjaFile (World S)
      → Option ℕ
      → ℕ
      → ℕ
      → Outcome (Result Bytes × Mount NinjaFile (World S))
  fs_read m fh size offset = Adapter.fs_read ninja_file m fh size offset
