-- ===== src/Fuse/Tests.antt =====
-- A mounted tree with the file "/d/x", and what is listed of it.
use gitlstreefs.Base.{ℕ, ◌≡◌, refl, false, none, some, [], ◌∷◌, List, Bytes, codes, bytes_eq}
use gitlstreefs.Base.Outcome.{done}
use gitlstreefs.Container.{get}
use gitlstreefs.Container.Names.{render}
use gitlstreefs.Container.Listing.{dir_path}
use gitlstreefs.Container.Example.{
  d, x, tree, x-Valid, tree-IsWellFormed, tree-get_d, tree-directory,
}
use gitlstreefs.Fuse.{ok, enosys, error, FileClass, Mount}
use gitlstreefs.Fuse.Adapter.{fs_opendir, fs_readdir}
use gitlstreefs.Fuse.Listing.{listed, is_some, readdir-get}

abbrev plain_file : FileClass ℕ ℕ
plain_file = record {
  getattr = λ f w stbuf. done (record stbuf { size = f }, f, w);
  open_file = λ f w. done (ok tt, f, w);
  read = λ f w size offset. done (error enosys, f, w);
  readlink = λ f w size. done (error enosys, f, w);
  release = λ f w. done (ok tt, f, w);
}

abbrev mount : Mount ℕ ℕ
mount = record { container = tree; world = 0 }

dot-x : bytes_eq (codes ".") x ≡ false
unfolding bytes_eq
dot-x = refl

dots-x : bytes_eq (codes "..") x ≡ false
unfolding bytes_eq
dots-x = refl

readdir-get_example :
    (names : List Bytes) × (fs_opendir plain_file mount (some (dir_path (d ∷ []))) none
      ≡ done (ok tt, some 2))
    × (fs_readdir tree (some 2) ≡ done (ok tt, names))
    × (listed x names ≡ is_some (get tree (render (x ∷ d ∷ []))))
readdir-get_example =
    readdir-get plain_file mount x (d ∷ []) 2 none tree-IsWellFormed x-Valid dot-x dots-x tree-get_d
      ((x, 1) ∷ [], tree-directory)
