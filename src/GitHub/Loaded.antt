-- ===== src/GitHub/Loaded.antt =====
-- What `LoadDirectoryInternal` adds for a listing.
use gitlstreefs.Base.{
  ℕ, suc, ◌%◌, ◌^◌, strtol, ◌≡◌, refl, ap, sym, ◌∙◌, Bool, true, false, List, bytes_eq, none, some,
  [], ◌∷◌, ◌++◌, Bytes, codes,
}
use gitlstreefs.Base.Outcome.{Outcome, done, undefined, out_of_fuel, defined, ◌>>=◌, bind_congr}
use gitlstreefs.Container.{leaf, directory, DirectoryContainer, add}
use gitlstreefs.Json.Value.{
  Value, false_value, array_value, object_value, Items, nil, cons, Members, find_member, get, at,
  string_value, number_value, get_array, get_number, is_true,
}
use gitlstreefs.Json.Parser.{parse}
use gitlstreefs.GitHub.{
  blob, tree, commit, GitFileType, TreeEntry, tree_entry, file_size_of,
  file_type_string_to_file_type, handle_files, parse_trees,
}
use gitlstreefs.GitHub.Load.{
  GithubFile, file_element, Action, add_file, add_directory, start_load, make_file, file_handler,
  run_jobs, apply_actions, fetch_url, load_directory_internal,
}
use gitlstreefs.GitHub.Fetched.{string_of-member}
use gitlstreefs.GitTree.Load.{mode_of}

-- What an entry of each type makes of the container: a file with its mode, hash and size, an empty
-- directory or nothing, under a slash and its path.
abbrev pub add_entry :
    GitFileType
    → TreeEntry
    → DirectoryContainer GithubFile
    → Outcome (DirectoryContainer GithubFile)
add_entry blob e c = defined (
    add c (b'/' ∷ e.path) (
      leaf
        (file_element (record { attribute = e.mode; sha1 = e.sha; size = e.size; memory = none }))))
add_entry tree e c = defined (add c (b'/' ∷ e.path) (directory []))
add_entry commit e c = done c

abbrev pub add_entries :
    List TreeEntry → DirectoryContainer GithubFile → Outcome (DirectoryContainer GithubFile)
add_entries [] c = done c
add_entries (e ∷ es) c = add_entry e.fstype e c >>= λ c'. add_entries es c'

-- What is done for an entry, with (`true`) or without remote recursion.
abbrev pub actions_of : Bool → GitFileType → TreeEntry → List Action
actions_of recursed blob e =
    add_file (b'/' ∷ e.path)
      (record { attribute = e.mode; sha1 = e.sha; size = e.size; memory = none })
    ∷ []
actions_of true tree e = add_directory (b'/' ∷ e.path) ∷ []
actions_of false tree e = add_directory (b'/' ∷ e.path) ∷ start_load e.sha ∷ []
actions_of recursed commit e = []

abbrev pub all_actions : Bool → List TreeEntry → List Action
all_actions recursed [] = []
all_actions recursed (e ∷ es) = actions_of recursed e.fstype e ++ all_actions recursed es

append_assoc : {A : Type 0} (xs ys zs : List A) → (xs ++ ys) ++ zs ≡ xs ++ (ys ++ zs)
append_assoc [] ys zs = refl
append_assoc (x ∷ xs) ys zs = ap (◌∷◌ x) (append_assoc xs ys zs)

append_nil : {A : Type 0} (xs : List A) → xs ++ [] ≡ xs
append_nil [] = refl
append_nil (x ∷ xs) = ap (◌∷◌ x) (append_nil xs)

file_handler-actions :
    (recursed : Bool) (e : TreeEntry) (before : List Action)
    → file_handler recursed e before ≡ done (before ++ actions_of recursed e.fstype e)
unfolding file_handler make_file
file_handler-actions recursed e before =
    elim e.fstype
      as (λ t.
        file_handler recursed (record e { fstype = t }) before
        ≡ done (before ++ actions_of recursed t e)) [
          | blob ↦ refl
          | tree ↦
              elim recursed
                as (λ r.
                  file_handler r (record e { fstype = tree }) before
                  ≡ done (before ++ actions_of r tree e)) [ true ↦ refl | false ↦ refl ]
          | commit ↦ ap (λ l. done l) (sym (append_nil before))
        ]

bind_done : {A : Type 0} (x : Outcome A) → (x >>= λ a. done a) ≡ x
bind_done (done a) = refl
bind_done undefined = refl
bind_done out_of_fuel = refl

run_jobs-actions :
    (interleave : List Action → List Action → List Action) (load : Bytes → Outcome (List Action))
    (t : GitFileType) (e : TreeEntry) (more : List Action)
    → run_jobs interleave load (actions_of true t e ++ more)
      ≡ (run_jobs interleave load more >>= λ rest. done (actions_of true t e ++ rest))
unfolding run_jobs
run_jobs-actions interleave load blob e more = refl
run_jobs-actions interleave load tree e more = refl
run_jobs-actions interleave load commit e more = sym (bind_done (run_jobs interleave load more))

pub run_jobs-all_actions :
    (interleave : List Action → List Action → List Action) (load : Bytes → Outcome (List Action))
    (es : List TreeEntry)
    → run_jobs interleave load (all_actions true es) ≡ done (all_actions true es)
unfolding run_jobs
run_jobs-all_actions interleave load [] = refl
run_jobs-all_actions interleave load (e ∷ es) =
    run_jobs-actions interleave load e.fstype e (all_actions true es)
    ∙ ap (λ o. o >>= λ rest. done (actions_of true e.fstype e ++ rest))
        (run_jobs-all_actions interleave load es)

apply_actions-actions :
    (t : GitFileType) (e : TreeEntry) (more : List Action) (c : DirectoryContainer GithubFile)
    → apply_actions (actions_of true t e ++ more) c
      ≡ (add_entry t e c >>= λ c'. apply_actions more c')
unfolding apply_actions
apply_actions-actions blob e more c = refl
apply_actions-actions tree e more c = refl
apply_actions-actions commit e more c = refl

apply_actions-all_actions :
    (es : List TreeEntry) (c : DirectoryContainer GithubFile)
    → apply_actions (all_actions true es) c ≡ add_entries es c
unfolding apply_actions
apply_actions-all_actions [] c = refl
apply_actions-all_actions (e ∷ es) c =
    apply_actions-actions e.fstype e (all_actions true es) c
    ∙ bind_congr (add_entry e.fstype e c) (λ c'. apply_actions (all_actions true es) c')
        (λ c'. add_entries es c') (λ c'. apply_actions-all_actions es c')

abbrev pub type_name : GitFileType → Bytes
type_name blob = codes "blob"
type_name tree = codes "tree"
type_name commit = codes "commit"

type_name-read : (t : GitFileType) → file_type_string_to_file_type (type_name t) ≡ done t
unfolding file_type_string_to_file_type bytes_eq
type_name-read blob = refl
type_name-read tree = refl
type_name-read commit = refl

module _ {N : Type 0} (strtof : Bytes → N) (to_size : N → ℕ) where
  -- Only blobs have a size.
  abbrev pub IsSize : Members N → GitFileType → ℕ → Type 0
  IsSize members blob size =
      (n : N) × (find_member (codes "size") members ≡ some (number_value n))
      × (to_size n % 2 ^ 32 ≡ size)
  IsSize members tree size = size ≡ 0
  IsSize members commit size = size ≡ 0

  -- The object of the listing that stands for an entry.
  pub record IsListed (v : Value N) (e : TreeEntry) : Type 0 where
    pub members : Members N
    pub object : v ≡ object_value members
    pub type : find_member (codes "type") members ≡ some (string_value (type_name e.fstype))
    pub path : find_member (codes "path") members ≡ some (string_value e.path)
    pub sha : find_member (codes "sha") members ≡ some (string_value e.sha)
    pub url : find_member (codes "url") members ≡ some (string_value e.url)
    pub octal : Bytes
    pub mode : find_member (codes "mode") members ≡ some (string_value octal)
    pub mode_read : mode_of (strtol octal 8) ≡ e.mode
    pub size : IsSize members e.fstype e.size

  file_size_of-IsSize :
      (members : Members N) (t : GitFileType) (size : ℕ)
      → IsSize members t size
      → file_size_of strtof to_size (object_value members) (type_name t) ≡ done size
  unfolding file_size_of get get_number bytes_eq
  file_size_of-IsSize members blob size (n, there, is) = rw (there, get, is) refl
  file_size_of-IsSize members tree size is = rw is refl
  file_size_of-IsSize members commit size is = rw is refl

  tree_entry-IsListed :
      (v : Value N) (e : TreeEntry) → IsListed v e → tree_entry strtof to_size v ≡ done e
  unfolding tree_entry
  tree_entry-IsListed v e l =
      rw
        (
          l.object,
          string_of-member strtof to_size l.members (codes "type") (type_name e.fstype) l.type,
          file_size_of-IsSize l.members e.fstype e.size l.size,
          type_name-read e.fstype,
          string_of-member strtof to_size l.members (codes "path") e.path l.path,
          string_of-member strtof to_size l.members (codes "mode") l.octal l.mode,
          string_of-member strtof to_size l.members (codes "sha") e.sha l.sha,
          string_of-member strtof to_size l.members (codes "url") e.url l.url,
          l.mode_read,
        )
        refl

  -- The objects stand for the entries, one by one.
  abbrev pub AreListed : Items N → List TreeEntry → Type 0
  AreListed nil [] = Unit
  AreListed (cons v vs) (e ∷ es) = IsListed v e × AreListed vs es
  AreListed nil (e ∷ es) = ⊥
  AreListed (cons v vs) [] = ⊥

  handle_files-AreListed :
      (recursed : Bool) (files : Items N) (es : List TreeEntry) (before : List Action)
      → AreListed files es
      → handle_files strtof to_size (file_handler recursed) files before
        ≡ done (before ++ all_actions recursed es)
  unfolding handle_files
  handle_files-AreListed recursed nil [] before l = ap (λ x. done x) (sym (append_nil before))
  handle_files-AreListed recursed nil (e ∷ es) before l = absurd l
  handle_files-AreListed recursed (cons v vs) [] before l = absurd l
  handle_files-AreListed recursed (cons v vs) (e ∷ es) before (l, ls) =
      rw (tree_entry-IsListed v e l, file_handler-actions recursed e before)
        (handle_files-AreListed recursed vs es (before ++ actions_of recursed e.fstype e) ls
          ∙ ap (λ x. done x)
              (append_assoc before (actions_of recursed e.fstype e) (all_actions recursed es)))

  -- The parser makes of the reply an object that is a complete listing of the entries.
  pub record IsListing (es : List TreeEntry) (reply : Bytes) : Type 0 where
    pub members : Members N
    pub files : Items N
    pub reads : parse strtof reply ≡ done (object_value members)
    pub complete : find_member (codes "truncated") members ≡ some false_value
    pub listing : find_member (codes "tree") members ≡ some (array_value files)
    pub listed : AreListed files es

  pub parse_trees-IsListing :
      (recursed : Bool) (es : List TreeEntry) (reply : Bytes)
      → IsListing es reply
      → parse_trees strtof to_size (file_handler recursed) reply []
        ≡ done (true, all_actions recursed es)
  unfolding parse_trees is_true get_array get at
  parse_trees-IsListing recursed es reply l =
      rw
        (
          l.reads,
          l.complete,
          l.listing,
          get,
          at,
          handle_files-AreListed recursed l.files es [] l.listed,
        )
        refl

  module _ (http_fetch : Bytes → Bytes) (interleave : List Action → List Action → List Action)
      (github_api_prefix : Bytes) where
    -- Where the parser makes of the server's reply for the whole tree an object that is a complete
    -- listing, `LoadDirectoryInternal` ends, and the calls of `add` that it makes add the entries to
    -- a container, in their order and each under a slash and its path: a file for a blob, with its
    -- mode, hash and size and without memory, an empty directory for a tree, and nothing for a commit.
    pub load_directory_internal-IsListing :
        (fuel : ℕ) (tree_hash : Bytes) (es : List TreeEntry)
        → IsListing es (
            http_fetch (
              github_api_prefix ++ (codes "/git/trees/" ++ (tree_hash ++ codes "?recursive=true"))))
        → (actions : List Action) × (load_directory_internal strtof to_size http_fetch interleave
              github_api_prefix
              (suc fuel)
              tree_hash
              true
            ≡ done actions)
          × ((c : DirectoryContainer GithubFile) → apply_actions actions c ≡ add_entries es c)
    unfolding load_directory_internal fetch_url
    load_directory_internal-IsListing fuel tree_hash es l = (
      all_actions true es,
      rw (parse_trees-IsListing true es _ l) (run_jobs-all_actions interleave _ es),
      apply_actions-all_actions es,
    )
