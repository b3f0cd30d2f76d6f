-- ===== src/Container/Listing.antt =====
-- What `for_each` lists, and the containers that calls of `add` build.
use mathlib.Core.Path.{subst}
use mathlib.Core.Option.{some-injective}
use gitlstreefs.Base.{
  ℕ, ◌≡◌, refl, sym, ◌∙◌, none, some, [], ◌∷◌, arith, Bytes, bytes_eq, bytes_eq_iff, Map, lookup,
}
use gitlstreefs.Container.{
  Object, directory, DirectoryContainer, get, add, for_each, empty_container,
}
use gitlstreefs.Container.Names.{Names, render, render-ne-slash, Valid}
use gitlstreefs.Container.Walk.{walk, node, IsDirectory, IsWellFormed}
use gitlstreefs.Container.Create.{IsBare, IsOpen}
use gitlstreefs.Container.Add.{add-Attached}

-- The path of a directory: "/" for the root.
abbrev pub dir_path : Names → Bytes
dir_path [] = b'/' ∷ []
dir_path (b ∷ up) = render (b ∷ up)

module _ {ℓ} {F : Type ℓ} where
  get-dir_path :
      (c : DirectoryContainer F) (x : Names)
      → IsWellFormed c
      → Valid x
      → get c (dir_path x) ≡ walk c x
  unfolding walk
  get-dir_path c [] wf v = wf.rooted
  get-dir_path c (b ∷ up) wf v = wf.agree (b ∷ up) v

  -- The entries of a directory are what the index has under its path.
  pub lookup-get :
      (c : DirectoryContainer F) (b : Bytes) (x : Names) (i : ℕ) (es : Map ℕ)
      → IsWellFormed c
      → Valid (b ∷ x)
      → get c (dir_path x) ≡ some i
      → c.objects i ≡ some (directory es)
      → lookup b es ≡ get c (render (b ∷ x))
  lookup-get c b x i es wf w at dir =
      let reached : walk c x ≡ some i = sym (get-dir_path c x wf w.2) ∙ at in
      unfold walk in ground (arith, wf.agree (b ∷ x) w, dir)

  -- In a well-formed container, `for_each` on a directory's path succeeds, and what it lists under
  -- a name (nothing, if the name is not listed) is what `get` returns for the path with this name
  -- behind it.
  pub for_each-get :
      (c : DirectoryContainer F) (b : Bytes) (x : Names) (i : ℕ)
      → IsWellFormed c
      → Valid (b ∷ x)
      → get c (dir_path x) ≡ some i
      → IsDirectory c i
      → (es : Map ℕ) × (for_each c (dir_path x) ≡ some es) × (lookup b es ≡ get c (render (b ∷ x)))
  unfolding for_each
  for_each-get c b x i wf w at dir =
      (dir.0, ground (arith, dir.1), lookup-get c b x i dir.0 wf w at dir.1)

walk-empty {ℓ} :
    (F : Type ℓ) (b : Bytes) (up : Names) → walk (empty_container {F = F}) (b ∷ up) ≡ none
unfolding walk lookup
walk-empty F b [] = refl
walk-empty F b (b' ∷ up) = rw (walk-empty F b' up)

module _ {ℓ} (F : Type ℓ) where
  agree-empty :
      (x : Names) → Valid x → node (empty_container {F = F}) x ≡ walk (empty_container {F = F}) x
  agree-empty [] v = unfold walk in refl
  agree-empty (b ∷ up) v = rw (walk-empty F b up) (
      unfold lookup in
      ground (arith, bytes_eq_iff (b'/' ∷ []) (render (b ∷ up)), render-ne-slash b up v))

  unshared-empty :
      (x y : Names) (i : ℕ)
      → walk (empty_container {F = F}) x ≡ some i
      → walk (empty_container {F = F}) y ≡ some i
      → x ≡ y
  unshared-empty [] [] i p q = refl
  unshared-empty [] (b ∷ y) i p q = cc (walk-empty F b y)
  unshared-empty (b ∷ x) y i p q = cc (walk-empty F b x)

  live-empty :
      (x : Names) (i : ℕ)
      → walk (empty_container {F = F}) x ≡ some i
      → (o : Object F) × ((empty_container {F = F}).objects i ≡ some o)
  live-empty [] i p = (directory [], unfold walk in ground arith)
  live-empty (b ∷ x) i p = cc (walk-empty F b x)

  pub empty_container-IsWellFormed : IsWellFormed (empty_container {F = F})
  unfolding lookup bytes_eq
  empty_container-IsWellFormed = record {
    agree = agree-empty;
    unshared = unshared-empty;
    live = live-empty;
    root = ([], refl);
    nameless = refl;
    rooted = refl;
    bound = λ i h. ground arith;
  }

-- A container that calls of `add` built, each on a path that was free.
pub data Built {ℓ} (F : Type ℓ) : DirectoryContainer F → Type ℓ where
  start : Built F empty_container
  more :
      {c c' : DirectoryContainer F} (o : Object F) (b : Bytes) (up : Names)
      → Built F c
      → IsBare o
      → Valid (b ∷ up)
      → IsOpen c up
      → walk c (b ∷ up) ≡ none
      → add c (render (b ∷ up)) o ≡ some c'
      → Built F c'

module _ {ℓ} {F : Type ℓ} where
  -- A container that calls of `add` built from the empty one, each on a free path under
  -- directories, is well formed: the index and the tree agree on every path of names, no object
  -- hangs at two paths, every object that a walk reaches is live, the root is a directory, the
  -- index holds it under "/" and holds nothing under the empty path.
  pub Built-IsWellFormed : {c : DirectoryContainer F} → Built F c → IsWellFormed c
  Built-IsWellFormed start = empty_container-IsWellFormed F
  Built-IsWellFormed (more {c} {c'} o b up built bare v op free run) =
      let (c2, run2, a) = add-Attached c o b up (Built-IsWellFormed built) bare v op free in
      subst IsWellFormed (some-injective c2 c' (sym run2 ∙ run)) a.well_formed
