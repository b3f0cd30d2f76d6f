-- ===== src/Container/Tests.antt =====
-- The theorems at a container with the file "/d/x".
use gitlstreefs.Base.{
  ℕ, ◌≡◌, refl, arith, none, some, [], ◌∷◌, codes, Map, lookup, insert, bytes_eq,
}
use gitlstreefs.Paths.{dir_name, base_name, rfind_slash}
use gitlstreefs.Container.{
  leaf, directory, DirectoryContainer, get, add, for_each, maybe_create_parent_dir,
  create_directory, parent_of, directory_add, destroy, destroy_entries, is_directory,
}
use gitlstreefs.Container.Walk.{walk, IsWellFormed}
use gitlstreefs.Container.Create.{IsOpen, Attached, Created, maybe_create_parent_dir-Created}
use gitlstreefs.Container.Add.{add-Attached, get-add, get-add_other, add_under_file}
use gitlstreefs.Container.Listing.{Built-IsWellFormed, for_each-get}
use gitlstreefs.Container.Example.{
  d, x, y, empty, tree, x-Valid, y-Valid, tree-Built, tree-IsWellFormed, tree-directory, tree-file,
  tree-get, tree-get_d,
}

tree-walk-d : walk tree (d ∷ []) ≡ some 2
unfolding walk add maybe_create_parent_dir create_directory parent_of directory_add destroy dir_name
    base_name rfind_slash lookup insert bytes_eq
tree-walk-d = refl

tree-walk-x : walk tree (x ∷ d ∷ []) ≡ some 1
unfolding walk add maybe_create_parent_dir create_directory parent_of directory_add destroy dir_name
    base_name rfind_slash lookup insert bytes_eq
tree-walk-x = refl

tree-walk-y : walk tree (y ∷ d ∷ []) ≡ none
unfolding walk add maybe_create_parent_dir create_directory parent_of directory_add destroy dir_name
    base_name rfind_slash lookup insert bytes_eq
tree-walk-y = refl

tree-IsOpen : IsOpen tree (d ∷ [])
tree-IsOpen = (λ i e. ((x, 1) ∷ [], cc (e, tree-walk-d, tree-directory)), tt)

add-Attached_example :
    (c' : DirectoryContainer ℕ) × (add tree (codes "/d/y") (leaf 2) ≡ some c')
    × Attached tree (leaf 2) y (d ∷ []) c'
add-Attached_example =
    add-Attached tree (leaf 2) y (d ∷ []) tree-IsWellFormed tt y-Valid tree-IsOpen tree-walk-y

get-add_example :
    (c' : DirectoryContainer ℕ) × (i : ℕ) × (add tree (codes "/d/y") (leaf 2) ≡ some c')
    × (get c' (codes "/d/y") ≡ some i)
    × (c'.objects i ≡ some (leaf 2))
get-add_example =
    get-add tree (leaf 2) y (d ∷ []) tree-IsWellFormed tt y-Valid tree-IsOpen tree-walk-y

get-add_other_example :
    (c' : DirectoryContainer ℕ) × (add tree (codes "/d/y") (leaf 2) ≡ some c')
    × (get c' (codes "/d/x") ≡ some 1)
    × (c'.objects 1 ≡ some (leaf 1))
get-add_other_example =
    get-add_other tree (leaf 2) y (d ∷ []) tree-IsWellFormed tt y-Valid tree-IsOpen tree-walk-y x
      (d ∷ []) 1 1 x-Valid tree-get tree-file

add_under_file_example : add tree (codes "/d/x/y") (leaf 2) ≡ none
add_under_file_example =
    add_under_file tree (leaf 2) y x (d ∷ []) 1 1 tree-IsWellFormed (λ e. cc e, refl, x-Valid)
      tree-walk-x tree-file

for_each-get_example :
    (es : Map ℕ) × (for_each tree (codes "/d") ≡ some es) × (lookup x es ≡ get tree (codes "/d/x"))
for_each-get_example =
    for_each-get tree x (d ∷ []) 2 tree-IsWellFormed x-Valid tree-get_d
      ((x, 1) ∷ [], tree-directory)

maybe_create_parent_dir-Created_example :
    (c' : DirectoryContainer ℕ) × (i : ℕ) × (maybe_create_parent_dir 5 tree (codes "/d/y")
      ≡ some (c', i))
    × Created tree (y ∷ d ∷ []) c' i
maybe_create_parent_dir-Created_example =
    maybe_create_parent_dir-Created (y ∷ d ∷ []) 5 tree tree-IsWellFormed y-Valid
      (λ i e. cc (e, tree-walk-y), tree-IsOpen) (omega arith)

Built-IsWellFormed_example : IsWellFormed tree
Built-IsWellFormed_example = Built-IsWellFormed tree-Built

-- A directory that is added again takes the place of the old one, whose files are freed; the index
-- still holds their addresses.
abbrev tree_again : DirectoryContainer ℕ
tree_again = elim (add tree (codes "/d") (directory [])) [ none ↦ empty | some c ↦ c ]

tree_again-get : get tree_again (codes "/d/x") ≡ some 1
unfolding add maybe_create_parent_dir create_directory parent_of directory_add destroy dir_name
    base_name rfind_slash lookup insert bytes_eq
tree_again-get = refl

tree_again-freed : tree_again.objects 1 ≡ none
unfolding add maybe_create_parent_dir create_directory parent_of directory_add destroy dir_name
    base_name rfind_slash lookup insert bytes_eq destroy_entries
tree_again-freed = refl

tree_again-is_directory : is_directory tree_again (codes "/d/x") ≡ none
unfolding is_directory add maybe_create_parent_dir create_directory parent_of directory_add destroy
    dir_name base_name rfind_slash lookup insert bytes_eq
tree_again-is_directory = refl
