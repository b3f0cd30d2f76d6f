-- ===== src/Container/Example.antt =====
-- A container with the file "/d/x".
use gitlstreefs.Base.{ℕ, ◌≡◌, refl, none, some, [], ◌∷◌, Bytes, codes, lookup, insert, bytes_eq}
use gitlstreefs.Paths.{dir_name, base_name, rfind_slash}
use gitlstreefs.Container.{
  leaf, directory, DirectoryContainer, empty_container, get, add, maybe_create_parent_dir,
  create_directory, parent_of, directory_add, destroy,
}
use gitlstreefs.Container.Names.{Valid}
use gitlstreefs.Container.Walk.{walk, IsWellFormed}
use gitlstreefs.Container.Create.{IsOpen}
use gitlstreefs.Container.Listing.{Built, start, more, Built-IsWellFormed}

abbrev pub d : Bytes
d = codes "d"

abbrev pub x : Bytes
x = codes "x"

abbrev pub y : Bytes
y = codes "y"

abbrev pub empty : DirectoryContainer ℕ
empty = empty_container

abbrev pub tree : DirectoryContainer ℕ
tree = elim (add empty (codes "/d/x") (leaf 1)) [ none ↦ empty | some c ↦ c ]

pub x-Valid : Valid (x ∷ d ∷ [])
x-Valid = (λ e. cc e, refl, (λ e. cc e, refl, tt))

pub y-Valid : Valid (y ∷ d ∷ [])
y-Valid = (λ e. cc e, refl, (λ e. cc e, refl, tt))

pub empty-IsOpen : IsOpen empty (d ∷ [])
unfolding walk lookup
empty-IsOpen = (λ i e. cc e, tt)

pub tree-run : add empty (codes "/d/x") (leaf 1) ≡ some tree
unfolding add maybe_create_parent_dir create_directory parent_of directory_add destroy dir_name
    base_name rfind_slash lookup insert bytes_eq
tree-run = refl

pub tree-Built : Built ℕ tree
unfolding walk lookup
tree-Built = more (leaf 1) x (d ∷ []) start tt x-Valid empty-IsOpen refl tree-run

pub tree-IsWellFormed : IsWellFormed tree
tree-IsWellFormed = Built-IsWellFormed tree-Built

pub tree-directory : tree.objects 2 ≡ some (directory ((x, 1) ∷ []))
unfolding add maybe_create_parent_dir create_directory parent_of directory_add destroy dir_name
    base_name rfind_slash lookup insert bytes_eq
tree-directory = refl

pub tree-file : tree.objects 1 ≡ some (leaf 1)
unfolding add maybe_create_parent_dir create_directory parent_of directory_add destroy dir_name
    base_name rfind_slash lookup insert bytes_eq
tree-file = refl

pub tree-get : get tree (codes "/d/x") ≡ some 1
unfolding add maybe_create_parent_dir create_directory parent_of directory_add destroy dir_name
    base_name rfind_slash lookup insert bytes_eq
tree-get = refl

pub tree-get_d : get tree (codes "/d") ≡ some 2
unfolding add maybe_create_parent_dir create_directory parent_of directory_add destroy dir_name
    base_name rfind_slash lookup insert bytes_eq
tree-get_d = refl
