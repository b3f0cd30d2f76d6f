-- ===== src/GitHub/Subdirectories.antt =====
-- Where `LoadDirectoryInternal` adds the entries of a subdirectory that it loads itself.
use gitlstreefs.Base.{
  ℕ, suc, ◌≡◌, ◌≢◌, refl, ap₂, Bool, true, false, some, List, [], ◌∷◌, ◌++◌, Bytes, codes, All,
}
use gitlstreefs.Base.Outcome.{Outcome, done}
use gitlstreefs.Json.Value.{true_value, object_value, Members, find_member, get, is_true}
use gitlstreefs.Json.Parser.{parse}
use gitlstreefs.GitHub.{blob, tree, commit, GitFileType, TreeEntry, parse_trees}
use gitlstreefs.GitHub.Load.{
  Action, add_directory, file_handler, run_jobs, fetch_url, load_directory_internal,
}
use gitlstreefs.GitHub.Loaded.{
  actions_of, all_actions, IsListing, parse_trees-IsListing, run_jobs-all_actions,
}

-- No entry is a directory.
abbrev pub AreFlat : List TreeEntry → Type 0
AreFlat es = All (λ e. e.fstype ≢ tree) es

actions_of-flat :
    (t : GitFileType) (e : TreeEntry) → t ≢ tree → actions_of false t e ≡ actions_of true t e
actions_of-flat blob e h = refl
actions_of-flat tree e h = absurd (h refl)
actions_of-flat commit e h = refl

all_actions-AreFlat :
    (es : List TreeEntry) → AreFlat es → all_actions false es ≡ all_actions true es
all_actions-AreFlat [] h = refl
all_actions-AreFlat (e ∷ es) h =
    ap₂ (◌++◌) (actions_of-flat e.fstype e h.0) (all_actions-AreFlat es h.1)

module _ {N : Type 0} (strtof : Bytes → N) (to_size : N → ℕ) where
  -- The parser makes of the reply an object that says that it is truncated.
  pub record IsTruncated (reply : Bytes) : Type 0 where
    pub members : Members N
    pub reads : parse strtof reply ≡ done (object_value members)
    pub truncated : find_member (codes "truncated") members ≡ some true_value

  parse_trees-IsTruncated :
      (reply : Bytes)
      → IsTruncated reply
      → parse_trees strtof to_size (file_handler true) reply [] ≡ done (false, [])
  unfolding parse_trees is_true get
  parse_trees-IsTruncated reply t = rw (t.reads, t.truncated, get) refl

  module _ (http_fetch : Bytes → Bytes) (interleave : List Action → List Action → List Action)
      (github_api_prefix : Bytes) where
    -- The reply for one directory.
    abbrev pub reply_for : Bytes → Bytes
    reply_for hash = http_fetch (github_api_prefix ++ (codes "/git/trees/" ++ (hash ++ [])))

    abbrev load : ℕ → Bytes → Bool → Outcome (List Action)
    load = load_directory_internal strtof to_size http_fetch interleave github_api_prefix

    load-flat :
        (fuel : ℕ) (hash : Bytes) (es : List TreeEntry)
        → IsListing strtof to_size es (reply_for hash)
        → AreFlat es
        → load (suc fuel) hash false ≡ done (all_actions true es)
    unfolding load_directory_internal fetch_url
    load-flat fuel hash es l flat =
        rw
          (
            parse_trees-IsListing strtof to_size false es (reply_for hash) l,
            all_actions-AreFlat es flat,
          )
          (run_jobs-all_actions interleave _ es)

    load-folder :
        (fuel : ℕ) (hash : Bytes) (folder : TreeEntry) (files inner : List TreeEntry)
        → folder.fstype ≡ tree
        → IsListing strtof to_size (folder ∷ files) (reply_for hash)
        → IsListing strtof to_size inner (reply_for folder.sha)
        → AreFlat files
        → AreFlat inner
        → load (suc (suc fuel)) hash false
          ≡ done (
              add_directory (b'/' ∷ folder.path)
              ∷ interleave (all_actions true inner) (all_actions true files))
    unfolding load_directory_internal fetch_url run_jobs
    load-folder fuel hash folder files inner is outer below flat flat' =
        rw
          (
            parse_trees-IsListing strtof to_size false (folder ∷ files) (reply_for hash) outer,
            is,
            all_actions-AreFlat files flat,
            load-flat fuel folder.sha inner below flat',
            run_jobs-all_actions interleave (λ sha. load (suc fuel) sha false) files,
          )
          refl

    -- Where the reply for the whole tree is truncated, and the one for its root alone lists a
    -- directory and then entries that are no directories, the entries of the directory, none of
    -- which is a directory either, are added under a slash and the path that the reply for the
    -- directory has, without the path of the directory: with the other entries of the root, in any
    -- order that the threads make of the two sequences.
    pub load_directory_internal-flattened :
        (fuel : ℕ) (hash : Bytes) (folder : TreeEntry) (files inner : List TreeEntry)
        → IsTruncated (
            http_fetch
              (github_api_prefix ++ (codes "/git/trees/" ++ (hash ++ codes "?recursive=true"))))
        → folder.fstype ≡ tree
        → IsListing strtof to_size (folder ∷ files) (reply_for hash)
        → IsListing strtof to_size inner (reply_for folder.sha)
        → AreFlat files
        → AreFlat inner
        → load_directory_internal strtof to_size http_fetch interleave github_api_prefix
            (suc (suc (suc fuel)))
            hash
            true
          ≡ done (
              add_directory (b'/' ∷ folder.path)
              ∷ interleave (all_actions true inner) (all_actions true files))
    unfolding load_directory_internal fetch_url
    load_directory_internal-flattened fuel hash folder files inner t is outer below flat flat' =
        rw (parse_trees-IsTruncated _ t)
          (load-folder fuel hash folder files inner is outer below flat flat')
