-- ===== src/Fuse/Listing.antt =====
-- What a directory lists, and what the container knows under the names.
use gitlstreefs.Base.{
  ℕ, ◌≡◌, refl, ap, ◌∙◌, Bool, true, false, ◌||◌, Option, none, some, List, [], ◌∷◌, ◌++◌, map,
  arith, Bytes, bytes_eq, codes, Map, lookup,
}
use gitlstreefs.Base.Outcome.{done}
use gitlstreefs.Paths.{is_absolute}
use gitlstreefs.Container.{directory, DirectoryContainer, get}
use gitlstreefs.Container.Names.{Names, render, Valid}
use gitlstreefs.Container.Walk.{IsDirectory, IsWellFormed}
use gitlstreefs.Container.Listing.{dir_path, lookup-get}
use gitlstreefs.Fuse.{ok, FileClass, Mount}
use gitlstreefs.Fuse.Adapter.{get_directory, fill_names, fs_readdir, fs_opendir}

abbrev pub listed : Bytes → List Bytes → Bool
listed b [] = false
listed b (n ∷ names) = bytes_eq n b || listed b names

abbrev pub is_some {ℓ} : {A : Type ℓ} → Option A → Bool
is_some none = false
is_some (some a) = true

listed-map :
    (b : Bytes) (es : Map ℕ) → listed b (map (λ (e : Bytes × ℕ). e.0) es) ≡ is_some (lookup b es)
unfolding lookup
listed-map b [] = refl
listed-map b ((n, i) ∷ es) = ground (arith, listed-map b es)

is_absolute-append : (s t : Bytes) → is_absolute s ≡ true → is_absolute (s ++ t) ≡ true
unfolding is_absolute
is_absolute-append [] t h = cc h
is_absolute-append (c ∷ s) t h = h

is_absolute-render : (b : Bytes) (up : Names) → is_absolute (render (b ∷ up)) ≡ true
unfolding is_absolute
is_absolute-render b [] = refl
is_absolute-render b (a ∷ up) =
    is_absolute-append (render (a ∷ up)) (b'/' ∷ b) (is_absolute-render a up)

is_absolute-dir_path : (x : Names) → is_absolute (dir_path x) ≡ true
unfolding is_absolute
is_absolute-dir_path [] = refl
is_absolute-dir_path (b ∷ up) = is_absolute-render b up

module _ {ℓ} {F W : Type ℓ} (class : FileClass F W) where
  opendir-directory :
      (m : Mount F W) (path : Bytes) (fh : Option ℕ) (i : ℕ) (es : Map ℕ)
      → is_absolute path ≡ true
      → get m.container path ≡ some i
      → m.container.objects i ≡ some (directory es)
      → fs_opendir class m (some path) fh ≡ done (ok tt, some i)
  unfolding fs_opendir get_directory
  opendir-directory m path fh i es a at dir = ground (arith, a, at, dir)

  readdir-directory :
      (c : DirectoryContainer F) (i : ℕ) (es : Map ℕ)
      → c.objects i ≡ some (directory es)
      → fs_readdir c (some i)
        ≡ done (ok tt, codes "." ∷ codes ".." ∷ map (λ (e : Bytes × ℕ). e.0) es)
  unfolding fs_readdir fill_names
  readdir-directory c i es dir = rw dir

  -- In a mounted tree that is well formed, `opendir` of the path of a directory succeeds, and
  -- `readdir` of the handle lists a name other than "." and ".." just where `get` of the
  -- directory's path with the name behind it finds something.
  pub readdir-get :
      (m : Mount F W) (b : Bytes) (x : Names) (i : ℕ) (fh : Option ℕ)
      → IsWellFormed m.container
      → Valid (b ∷ x)
      → bytes_eq (codes ".") b ≡ false
      → bytes_eq (codes "..") b ≡ false
      → get m.container (dir_path x) ≡ some i
      → IsDirectory m.container i
      → (names : List Bytes) × (fs_opendir class m (some (dir_path x)) fh ≡ done (ok tt, some i))
        × (fs_readdir m.container (some i) ≡ done (ok tt, names))
        × (listed b names ≡ is_some (get m.container (render (b ∷ x))))
  readdir-get m b x i fh wf v dot dots at dir = (
    codes "." ∷ codes ".." ∷ map (λ (e : Bytes × ℕ). e.0) dir.0,
    opendir-directory m (dir_path x) fh i dir.0 (is_absolute-dir_path x) at dir.1,
    readdir-directory m.container i dir.0 dir.1,
    rw (dot, dots)
        (listed-map b dir.0 ∙ ap is_some (lookup-get m.container b x i dir.0 wf v at dir.1)),
  )
