-- ===== src/GitHub.antt =====
-- git-githubfs.h and git-githubfs.cc: the files of a tree that the API of github.com lists. `N` is
-- `float`; `strtof` and the conversion of a `float` to `size_t` are parameters.
pub mod File
pub mod Load
pub mod Fetched
pub mod Loaded
pub mod Subdirectories
mod Tests
mod ListingTests
use gitlstreefs.Base.{
  ℕ, ◌%◌, ◌^◌, Bool, true, false, List, [], ◌∷◌, if◌then◌else◌, Option, none, some, Bytes, bytes_eq,
  codes, strtol,
}
use gitlstreefs.Base.Outcome.{Outcome, done, undefined, defined, ◌>>=◌}
use gitlstreefs.Json.Value.{
  Value, Items, nil, cons, get, at, get_array, get_string, get_number, is_true,
}
use gitlstreefs.Json.Parser.{parse}
use gitlstreefs.GitTree.Load.{mode_of}
use gitlstreefs.Base64.{base64decode}

pub data GitFileType : Type 0 where
  blob tree commit : GitFileType

-- `file_type_map.find(...)->second`; another name gives `end()`.
unfoldable pub file_type_string_to_file_type : Bytes → Outcome GitFileType
file_type_string_to_file_type s =
    if bytes_eq s (codes "blob")
    then done blob
    else if bytes_eq s (codes "tree")
    then done tree
    else if bytes_eq s (codes "commit")
    then done commit
    else undefined

-- What `file_handler` is given.
pub record TreeEntry : Type 0 where
  pub path : Bytes
  pub mode : ℕ
  pub fstype : GitFileType
  pub sha : Bytes
  pub size : ℕ
  pub url : Bytes

-- `value.get(key).get_string()`.
unfoldable pub string_of : {N : Type 0} → Value N → Bytes → Outcome Bytes
string_of v key = defined (get v key) >>= λ w. defined (get_string w)

abbrev pub is_blob : Bytes → Bool
is_blob type = bytes_eq type (codes "blob")

module _ {N : Type 0} (strtof : Bytes → N) (to_size : N → ℕ) where
  unfoldable pub parse_commits : Bytes → Outcome Bytes
  unfolding string_of
  parse_commits commits_string = do
    commits ← parse strtof commits_string
    items ← defined (get_array commits)
    elim items [
      | nil ↦ done []
      | cons v vs ↦
          (defined (get v (codes "commit")) >>= λ c. defined (at c (codes "tree")) >>= λ t.
          defined (at t (codes "sha")) >>= λ s. defined (get_string s))
    ]

  unfoldable pub parse_commit : Bytes → Outcome Bytes
  parse_commit commit_string = do
    v ← parse strtof commit_string
    c ← defined (get v (codes "commit"))
    t ← defined (at c (codes "tree"))
    s ← defined (at t (codes "sha"))
    defined (get_string s)

  unfoldable pub parse_blob : Bytes → Outcome Bytes
  unfolding string_of
  parse_blob blob_string = do
    v ← parse strtof blob_string
    encoding ← string_of v (codes "encoding")
    base64 ← string_of v (codes "content")
    if bytes_eq encoding (codes "base64") then base64decode base64 else undefined

  -- `file_size` is a `size_t` and becomes an `int`, as the bit pattern of it.
  unfoldable pub file_size_of : Value N → Bytes → Outcome ℕ
  file_size_of file type =
      if is_blob type
      then (defined (get file (codes "size")) >>= λ v.
          defined (get_number v) >>= λ n. done (to_size n % 2 ^ 32))
      else done 0

  unfoldable pub tree_entry : Value N → Outcome TreeEntry
  unfolding string_of file_size_of file_type_string_to_file_type
  tree_entry file = do
    type ← string_of file (codes "type")
    file_size ← file_size_of file type
    fstype ← file_type_string_to_file_type type
    path ← string_of file (codes "path")
    mode ← string_of file (codes "mode")
    sha ← string_of file (codes "sha")
    url ← string_of file (codes "url")
    done (record {
      path = path;
      mode = mode_of (strtol mode 8);
      fstype = fstype;
      sha = sha;
      size = file_size;
      url = url;
    })

  module _ {S : Type 0} (file_handler : TreeEntry → S → Outcome S) where
    unfoldable pub handle_files : Items N → S → Outcome S
    handle_files nil st = done st
    handle_files (cons file files) st =
        tree_entry file >>= λ e. file_handler e st >>= λ st'. handle_files files st'

    -- The state is what `file_handler` works on.
    unfoldable pub parse_trees : Bytes → S → Outcome (Bool × S)
    unfolding handle_files
    parse_trees trees_string st = do
      value ← parse strtof trees_string
      truncated ← defined (get value (codes "truncated"))
      let rest : Outcome (Bool × S) = do
        array ← defined (at value (codes "tree"))
        files ← defined (get_array array)
        st' ← handle_files files st
        done (true, st')
      if is_true truncated then done (false, st) else rest
