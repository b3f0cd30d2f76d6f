-- ===== src/GitTree/Tests.antt =====
-- A file that is in the cache, and one that is in memory.
use gitlstreefs.Base.{
  strtol_digit, strtol_file, none, false, ◌≡◌, refl, inl, arith, Option, some, Bytes, codes,
}
use gitlstreefs.Base.Outcome.{done, defined}
use gitlstreefs.Fuse.Window.{window}
use gitlstreefs.GitTree.{FileElement, read_blocks}
use gitlstreefs.Container.{leaf, DirectoryContainer, empty_container, add}
use gitlstreefs.GitCatFile.{atoi}
use gitlstreefs.Paths.{is_absolute}
use gitlstreefs.GitTree.Load.{TreeFile, file_element, load_line}
use gitlstreefs.GitTree.Lines.{load_line-file, load_line_space}
use gitlstreefs.GitTree.Reads.{read_blocks-all}

abbrev cache : Bytes → Option Bytes
cache sha1 = some (codes "contents")

abbrev loaded : FileElement
loaded = record {
  attribute = 0x1a4;
  sha1 = codes "abc";
  size = (false, 8);
  memory = some (codes "contents");
}

window_inside : window (codes "contents") 3 2 ≡ codes "nte"
unfolding window
window_inside = refl

window_at_end : window (codes "contents") 100 5 ≡ codes "nts"
unfolding window
window_at_end = refl

read_blocks-all_example : read_blocks cache 10 loaded 3 0 ≡ done (codes "contents")
read_blocks-all_example =
    read_blocks-all cache loaded (codes "contents") 3 10 (inl refl) (omega arith) (omega arith)

abbrev no_files : DirectoryContainer TreeFile
no_files = empty_container

atoi_three : atoi (codes "3") ≡ done (false, 3)
unfolding atoi
atoi_three = rw (strtol_digit b'3' refl)

relative_path : is_absolute (codes "README") ≡ false
unfolding is_absolute
relative_path = refl

load_line-file_example :
    load_line (codes "100644 blob abc       3\tREADME") no_files
    ≡ defined (
        add no_files (codes "/README") (
          leaf (
            file_element (record {
              attribute = 0x81a4;
              sha1 = codes "abc";
              size = (false, 3);
              memory = none;
            }))))
load_line-file_example =
    load_line-file (codes "100644") (codes "blob") (codes "abc") 6 (codes "3") (codes "README")
      0x81a4 (false, 3) no_files (λ e. cc e) refl (λ e. cc e) refl (λ e. cc e) refl refl refl refl
      atoi_three strtol_file (omega arith) relative_path

-- The file "a b" is not loaded.
load_line_space_example : load_line (codes "100644 blob abc       3\ta b") no_files ≡ done no_files
load_line_space_example =
    load_line_space (codes "100644") (codes "blob") (codes "abc") 6 (codes "3\ta") (codes "b")
      no_files (λ e. cc e) refl (λ e. cc e) refl (λ e. cc e) refl (λ e. cc e) refl
