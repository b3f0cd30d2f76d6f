-- ===== src/GitHub/ListingTests.antt =====
-- A listing of github.com, and the theorems at it.
use gitlstreefs.Base.{
  ℕ, ◌≡◌, none, if◌then◌else◌, List, refl, true, [], ◌∷◌, ◌++◌, Bytes, codes, strtol_file,
  strtol_folder, bytes_eq,
}
use gitlstreefs.Base.Outcome.{done}
use gitlstreefs.Container.{DirectoryContainer}
use gitlstreefs.Json.Value.{
  string_value, number_value, object_value, array_value, true_value, false_value, nil, cons,
  Members, end, member,
}
use gitlstreefs.Json.Lexer.{
  skip_whitespace, skip_valid, valid_whitespace, valid_number, obtain_number, consume,
  obtain_string, string_loop, escape, escaped_byte, assert_consume,
}
use gitlstreefs.Json.Parser.{
  parse, obtain_value, obtain_object, obtain_array, object_loop, array_loop, key_of,
}
use gitlstreefs.GitTree.Load.{mode_of}
use gitlstreefs.GitHub.{blob, tree, TreeEntry}
use gitlstreefs.GitHub.File.{FileElement}
use gitlstreefs.GitHub.Load.{
  GithubFile, Action, add_file, add_directory, load_directory_internal, apply_actions,
}
use gitlstreefs.GitHub.Loaded.{add_entries, IsListed, IsListing, load_directory_internal-IsListing}
use gitlstreefs.GitHub.Subdirectories.{IsTruncated, load_directory_internal-flattened}
use gitlstreefs.GitHub.Tests.{digit, size_of}

-- The object of the listing, with its size.
abbrev sized : Bytes → Members ℕ → Members ℕ
sized name rest = member (codes "path") (string_value name) (
    member (codes "mode") (string_value (codes "100644")) (
      member (codes "type") (string_value (codes "blob"))
        (member (codes "sha") (string_value (codes "abc")) rest)))

abbrev readme_members : Members ℕ
readme_members = sized (codes "README") (
    member (codes "size") (number_value 5)
      (member (codes "url") (string_value (codes "api/abc")) end))

abbrev readme : TreeEntry
readme = record {
  path = codes "README";
  mode = 0x81a4;
  fstype = blob;
  sha = codes "abc";
  size = 5;
  url = codes "api/abc";
}

abbrev folder_members : Members ℕ
folder_members = member (codes "path") (string_value (codes "lib")) (
    member (codes "mode") (string_value (codes "040000")) (
      member (codes "type") (string_value (codes "tree")) (
        member (codes "sha") (string_value (codes "def"))
          (member (codes "url") (string_value (codes "api/def")) end))))

abbrev folder : TreeEntry
folder = record {
  path = codes "lib";
  mode = 0x4000;
  fstype = tree;
  sha = codes "def";
  size = 0;
  url = codes "api/def";
}

readme-IsListed : IsListed digit size_of (object_value readme_members) readme
unfolding bytes_eq mode_of
readme-IsListed = record {
  members = readme_members;
  object = refl;
  type = refl;
  path = refl;
  sha = refl;
  url = refl;
  octal = codes "100644";
  mode = refl;
  mode_read = rw strtol_file refl;
  size = (5, refl, refl);
}

folder-IsListed : IsListed digit size_of (object_value folder_members) folder
unfolding bytes_eq mode_of
folder-IsListed = record {
  members = folder_members;
  object = refl;
  type = refl;
  path = refl;
  sha = refl;
  url = refl;
  octal = codes "040000";
  mode = refl;
  mode_read = rw strtol_folder refl;
  size = refl;
}

abbrev listing : Members ℕ
listing =
    member (codes "tree")
      (array_value (cons (object_value folder_members) (cons (object_value readme_members) nil)))
      (member (codes "truncated") false_value end)

abbrev inner_listing : Members ℕ
inner_listing =
    member (codes "tree") (array_value (cons (object_value readme_members) nil))
      (member (codes "truncated") false_value end)

abbrev truncated_listing : Members ℕ
truncated_listing =
    member (codes "tree") (array_value nil) (member (codes "truncated") true_value end)

abbrev reply_listing : Bytes
reply_listing =
    codes
      "{\n  \"tree\": [\n    {\n      \"path\": \"lib\",\n      \"mode\": \"040000\",\n      \"type\": \"tree\",\n      \"sha\": \"def\",\n      \"url\": \"api/def\"\n    },\n    {\n      \"path\": \"README\",\n      \"mode\": \"100644\",\n      \"type\": \"blob\",\n      \"sha\": \"abc\",\n      \"size\": 5,\n      \"url\": \"api/abc\"\n    }\n  ],\n  \"truncated\": false\n}\n"

abbrev reply_inner : Bytes
reply_inner =
    codes
      "{\n  \"tree\": [\n    {\n      \"path\": \"README\",\n      \"mode\": \"100644\",\n      \"type\": \"blob\",\n      \"sha\": \"abc\",\n      \"size\": 5,\n      \"url\": \"api/abc\"\n    }\n  ],\n  \"truncated\": false\n}\n"

abbrev reply_truncated : Bytes
reply_truncated = codes "{\n  \"tree\": [],\n  \"truncated\": true\n}\n"

listing-reads : parse digit reply_listing ≡ done (object_value listing)
unfolding parse obtain_value obtain_object obtain_array object_loop array_loop key_of obtain_string
    string_loop escape escaped_byte skip_whitespace skip_valid valid_whitespace obtain_number
    consume valid_number assert_consume bytes_eq
listing-reads = refl

inner-reads : parse digit reply_inner ≡ done (object_value inner_listing)
unfolding parse obtain_value obtain_object obtain_array object_loop array_loop key_of obtain_string
    string_loop escape escaped_byte skip_whitespace skip_valid valid_whitespace obtain_number
    consume valid_number assert_consume bytes_eq
inner-reads = refl

truncated-reads : parse digit reply_truncated ≡ done (object_value truncated_listing)
unfolding parse obtain_value obtain_object obtain_array object_loop array_loop key_of obtain_string
    string_loop escape escaped_byte skip_whitespace skip_valid valid_whitespace obtain_number
    consume valid_number assert_consume bytes_eq
truncated-reads = refl

reply-IsListing : IsListing digit size_of (folder ∷ readme ∷ []) reply_listing
unfolding bytes_eq
reply-IsListing = record {
  members = listing;
  files = cons (object_value folder_members) (cons (object_value readme_members) nil);
  reads = listing-reads;
  complete = refl;
  listing = refl;
  listed = (folder-IsListed, (readme-IsListed, tt));
}

inner-IsListing : IsListing digit size_of (readme ∷ []) reply_inner
unfolding bytes_eq
inner-IsListing = record {
  members = inner_listing;
  files = cons (object_value readme_members) nil;
  reads = inner-reads;
  complete = refl;
  listing = refl;
  listed = (readme-IsListed, tt);
}

reply-IsTruncated : IsTruncated digit size_of reply_truncated
unfolding bytes_eq
reply-IsTruncated = record {
  members = truncated_listing;
  reads = truncated-reads;
  truncated = refl;
}

load_directory_internal-IsListing_example :
    (actions : List Action) × (load_directory_internal digit size_of
        (λ url. reply_listing)
        (λ a b. a ++ b)
        (codes "api")
        1
        (codes "123")
        true
      ≡ done actions)
    × ((c : DirectoryContainer GithubFile)
        → apply_actions actions c ≡ add_entries (folder ∷ readme ∷ []) c)
load_directory_internal-IsListing_example =
    load_directory_internal-IsListing digit size_of (λ url. reply_listing) (λ a b. a ++ b)
      (codes "api") 0 (codes "123") (folder ∷ readme ∷ []) reply-IsListing

abbrev server : Bytes → Bytes
server url =
    if bytes_eq url (codes "api/git/trees/123?recursive=true")
    then reply_truncated
    else if bytes_eq url (codes "api/git/trees/123")
    then reply_listing
    else reply_inner

server_whole : IsTruncated digit size_of (server (codes "api/git/trees/123?recursive=true"))
unfolding bytes_eq
server_whole = reply-IsTruncated

server_root : IsListing digit size_of (folder ∷ readme ∷ []) (server (codes "api/git/trees/123"))
unfolding bytes_eq
server_root = reply-IsListing

server_folder : IsListing digit size_of (readme ∷ []) (server (codes "api/git/trees/def"))
unfolding bytes_eq
server_folder = inner-IsListing

abbrev readme_file : FileElement
readme_file = record { attribute = 0x81a4; sha1 = codes "abc"; size = 5; memory = none }

-- "/lib/README" is added as "/README", as is the file of the root.
load_directory_internal-flattened_example :
    load_directory_internal digit size_of server (λ a b. a ++ b) (codes "api") 3 (codes "123") true
    ≡ done (
        add_directory (codes "/lib")
        ∷ add_file (codes "/README") readme_file
        ∷ add_file (codes "/README") readme_file
        ∷ [])
load_directory_internal-flattened_example =
    load_directory_internal-flattened digit size_of server (λ a b. a ++ b) (codes "api") 0
      (codes "123") folder (readme ∷ []) (readme ∷ []) server_whole refl server_root server_folder
      ((λ e. cc e), tt) ((λ e. cc e), tt)
