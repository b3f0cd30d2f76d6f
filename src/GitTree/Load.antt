-- ===== src/GitTree/Load.antt =====
-- `GitTree::LoadDirectory` of gitlstree.cc: the listing of `git ls-tree -l -r` becomes files of the
-- container. What the two git commands print, and their exit codes, are arguments.
use gitlstreefs.Base.{
  ℕ, ◌-◌, ◌%◌, ◌^◌, Bool, true, false, not, none, List, [], ◌∷◌, ◌++◌, ◌==◌, if◌then◌else◌, Bytes,
  codes, take, length, strtol,
}
use gitlstreefs.Base.Outcome.{Outcome, done, undefined, defined, ◌>>=◌}
use gitlstreefs.Paths.{is_absolute}
use gitlstreefs.Split.{split_string_using}
use gitlstreefs.Container.{leaf, DirectoryContainer, add}
use gitlstreefs.GitCatFile.{atoi}
use gitlstreefs.GitTree.{FileElement}

-- The concrete files: `FileElement`, `StatusHandler` and `GitHeadHandler` with its text.
pub data TreeFile : Type 0 where
  file_element : FileElement → TreeFile
  status_handler : TreeFile
  git_head_handler : Bytes → TreeFile

-- A `long` in the 32 bits of `mode_t`.
unfoldable pub mode_of : Bool × ℕ → ℕ
mode_of (negative, n) = if negative then (2 ^ 32 - n % 2 ^ 32) % 2 ^ 32 else n % 2 ^ 32

-- `make_unique<FileElement>(attribute, sha1, size, this)`.
unfoldable pub listed_file : Bytes → Bytes → Bool × ℕ → FileElement
listed_file mode sha1 size = record {
  attribute = mode_of (strtol mode 8);
  sha1 = sha1;
  size = size;
  memory = none;
}

-- From the second split on; other than two parts are a failed assertion.
unfoldable pub load_element :
    Bytes → Bytes → List Bytes → DirectoryContainer TreeFile → Outcome (DirectoryContainer TreeFile)
load_element mode sha1 (size ∷ file_path ∷ []) container =
    if is_absolute file_path
    then undefined
    else atoi size >>= λ n.
        defined (add container (b'/' ∷ file_path) (leaf (file_element (listed_file mode sha1 n))))
load_element mode sha1 _ container = undefined

-- A line that does not have four elements is passed over.
unfoldable pub load_elements :
    List Bytes → DirectoryContainer TreeFile → Outcome (DirectoryContainer TreeFile)
load_elements (mode ∷ type ∷ sha1 ∷ rest ∷ []) container =
    defined (split_string_using rest b'\t' false) >>= λ elements3.
    load_element mode sha1 elements3 container
load_elements _ container = done container

unfoldable pub load_line :
    Bytes → DirectoryContainer TreeFile → Outcome (DirectoryContainer TreeFile)
load_line line container =
    defined (split_string_using line b' ' true) >>= λ elements. load_elements elements container

unfoldable pub load_lines :
    List Bytes → DirectoryContainer TreeFile → Outcome (DirectoryContainer TreeFile)
load_lines [] container = done container
load_lines (line ∷ lines) container = load_line line container >>= λ c. load_lines lines c

-- The result of the function, and the container. `hash.resize(hash.size() - 1)` throws on an empty
-- text.
unfoldable pub load_directory :
    Bytes × ℕ
    → Bytes × ℕ
    → DirectoryContainer TreeFile
    → Outcome (Bool × DirectoryContainer TreeFile)
load_directory ([], exit_code_revparse) lstree container = undefined
load_directory (h ∷ hash, exit_code_revparse) (git_ls_tree, exit_code) container =
    let revision = take (length hash) (h ∷ hash) in
    if not (exit_code_revparse == 0)
    then done (false, container)
    else if not (exit_code == 0)
    then done (false, container)
    else do
      lines ← defined (split_string_using git_ls_tree b'\n' true)
      c1 ← load_lines lines container
      c2 ← defined (add c1 (codes "/.status") (leaf status_handler))
      c3 ← defined (add c2 (codes "/.git/HEAD") (leaf (git_head_handler (revision ++ b'\n' ∷ []))))
      done (true, c3)
