-- ===== src/GitHub/Load.antt =====
-- `LoadDirectoryInternal` and the constructor of `GitTree` in git-githubfs.cc. The loads of the
-- subdirectories run at the same time as the rest of the loop that starts them: what is added is a
-- sequence, and the order in which the threads reach the container's lock is a parameter, `interleave`.
-- The path of the subdirectory is only printed, and left out.
use gitlstreefs.Base.{
  ℕ, zero, suc, Bool, true, false, List, [], ◌∷◌, ◌++◌, if◌then◌else◌, none, Bytes, codes,
}
use gitlstreefs.Base.Outcome.{Outcome, done, out_of_fuel, defined, ◌>>=◌}
use gitlstreefs.Container.{leaf, directory, DirectoryContainer, add}
use gitlstreefs.GitHub.{blob, tree, commit, TreeEntry, parse_commit, parse_trees}
use gitlstreefs.GitHub.File.{FileElement}

-- The concrete files.
pub data GithubFile : Type 0 where
  file_element : FileElement → GithubFile
  status_handler : GithubFile

-- What the handler does: it adds a file or a directory under a path, or starts the load of the tree
-- with a hash.
pub data Action : Type 0 where
  add_file : Bytes → FileElement → Action
  add_directory : Bytes → Action
  start_load : Bytes → Action

unfoldable pub make_file : TreeEntry → FileElement
make_file e = record { attribute = e.mode; sha1 = e.sha; size = e.size; memory = none }

-- `jobs.emplace_back(async(...))`.
abbrev pub emplace_job : Bool → TreeEntry → List Action
emplace_job true e = []
emplace_job false e = start_load e.sha ∷ []

-- The `file_handler` of `LoadDirectoryInternal`, behind what was done before.
unfoldable pub file_handler : Bool → TreeEntry → List Action → Outcome (List Action)
unfolding make_file
file_handler remote_recurse e before =
    let slash_path = b'/' ∷ e.path in
    elim e.fstype [
      | blob ↦ done (before ++ add_file slash_path (make_file e) ∷ [])
      | tree ↦ done (before ++ add_directory slash_path ∷ emplace_job remote_recurse e)
      | commit ↦ done before
    ]

-- The actions of a loop with those of the loads that it starts; `load` is the recursive call.
unfoldable pub run_jobs :
    (List Action → List Action → List Action)
    → (Bytes → Outcome (List Action))
    → List Action
    → Outcome (List Action)
run_jobs interleave load [] = done []
run_jobs interleave load (start_load sha ∷ actions) = load sha >>= λ started.
    run_jobs interleave load actions >>= λ rest. done (interleave started rest)
run_jobs interleave load (add_file path f ∷ actions) =
    run_jobs interleave load actions >>= λ rest. done (add_file path f ∷ rest)
run_jobs interleave load (add_directory path ∷ actions) =
    run_jobs interleave load actions >>= λ rest. done (add_directory path ∷ rest)

-- The calls of `container_->add`.
unfoldable pub apply_actions :
    List Action → DirectoryContainer GithubFile → Outcome (DirectoryContainer GithubFile)
apply_actions [] c = done c
apply_actions (add_file path f ∷ actions) c =
    defined (add c path (leaf (file_element f))) >>= λ c'. apply_actions actions c'
apply_actions (add_directory path ∷ actions) c =
    defined (add c path (directory [])) >>= λ c'. apply_actions actions c'
apply_actions (start_load sha ∷ actions) c = apply_actions actions c

module _ {N : Type 0} (strtof : Bytes → N) (to_size : N → ℕ) (http_fetch : Bytes → Bytes)
    (interleave : List Action → List Action → List Action) (github_api_prefix : Bytes) where
  unfoldable pub fetch_url : Bytes → Bool → Bytes
  fetch_url tree_hash remote_recurse =
      github_api_prefix
      ++ (codes "/git/trees/"
          ++ (tree_hash ++ (if remote_recurse then codes "?recursive=true" else [])))

  -- The fuel bounds the depth, and the repetition where a reply is truncated.
  unfoldable pub load_directory_internal : ℕ → Bytes → Bool → Outcome (List Action)
  unfolding run_jobs fetch_url
  load_directory_internal zero tree_hash remote_recurse = out_of_fuel
  load_directory_internal (suc fuel) tree_hash remote_recurse = do
    let github_tree = http_fetch (fetch_url tree_hash remote_recurse)
    (complete, actions) ← parse_trees strtof to_size (file_handler remote_recurse) github_tree []
    if complete
        then run_jobs interleave (λ sha. load_directory_internal fuel sha false) actions
        else load_directory_internal fuel tree_hash false

  -- The constructor; the fuel is that of the loading.
  unfoldable pub construct :
      ℕ → Bytes → DirectoryContainer GithubFile → Outcome (DirectoryContainer GithubFile)
  construct fuel hash container = do
    tree_hash ←
        parse_commit strtof to_size (http_fetch (github_api_prefix ++ (codes "/commits/" ++ hash)))
    actions ← load_directory_internal fuel tree_hash true
    c ← apply_actions actions container
    defined (add c (codes "/.status") (leaf status_handler))
