-- ===== src/Container/Attach.antt =====
-- Hanging a loose object into the tree, as `add` and `MaybeCreateParentDir` do in their last lines.
use gitlstreefs.Base.{
  ℕ, ◌≡◌, ◌≢◌, inl, inr, refl, ◌&&◌, none, some, [], ◌∷◌, arith, ◌==◌, ==_iff, if◌then◌else◌,
  Bool-cases, Option-cases, Bytes, bytes_eq, bytes_eq_iff, Map, lookup, insert, lookup-insert,
}
use gitlstreefs.Container.{Object, directory, DirectoryContainer, update, directory_add}
use gitlstreefs.Container.Names.{
  Names, render, render-ne-nil, render-ne-slash, Valid, names_eq, names_eq_iff, names_eq_cons,
  bytes_eq-render,
}
use gitlstreefs.Container.Walk.{entry, walk, node, IsDirectory, IsWellFormed, IsLoose}

module _ {ℓ} {F : Type ℓ} where
  -- The object `i` as the entry `b` of the directory `d`, and under `path` in the index.
  abbrev pub hung : DirectoryContainer F → ℕ → Map ℕ → Bytes → ℕ → Bytes → DirectoryContainer F
  hung c d es b i path = record c {
    objects = update c.objects d (some (directory (insert b i es)));
    files = insert path i c.files;
  }

  -- The code's two writes do that, where the directory has no such entry.
  pub directory_add-hung :
      (c : DirectoryContainer F) (d : ℕ) (es : Map ℕ) (b : Bytes) (i : ℕ) (path : Bytes)
      → c.objects d ≡ some (directory es)
      → lookup b es ≡ none
      → directory_add (record c { files = insert path i c.files }) d b i
        ≡ some (hung c d es b i path)
  unfolding directory_add
  directory_add-hung c d es b i path dir free = ground arith

  entry-hung :
      (c : DirectoryContainer F) (d : ℕ) (es : Map ℕ) (b : Bytes) (i : ℕ) (path : Bytes)
      → c.objects d ≡ some (directory es)
      → (k : ℕ) (y : Bytes)
      → entry (hung c d es b i path) k y ≡ (if d == k && bytes_eq b y then some i else entry c k y)
  entry-hung c d es b i path dir k y = elim (Bool-cases (d == k)) [
    | inl e ↦ rw (e, lookup-insert b y i es, ← (==_iff d k).0 e, dir)
    | inr e ↦ rw e
  ]

module _ {ℓ} {F : Type ℓ} (c : DirectoryContainer F) (wf : IsWellFormed c) (up : Names) (b : Bytes)
    (d : ℕ) (es : Map ℕ) (at : walk c up ≡ some d) (dir : c.objects d ≡ some (directory es))
    (free : lookup b es ≡ none) (i : ℕ) (o : Object F) (loose : IsLoose c i o) where
  unshared-eq : (t : Names) (k : ℕ) → walk c t ≡ some k → (d == k) ≡ names_eq up t
  unshared-eq t k e = elim (Bool-cases (names_eq up t)) [
    | inl same ↦ let e' : walk c up ≡ some k = rw ((names_eq_iff up t).0 same) e in ground arith
    | inr other ↦ ground (arith, names_eq_iff up t, wf.unshared up t d at)
  ]

  pub walk-hung :
      (path : Bytes) (x : Names)
      → walk (hung c d es b i path) x ≡ (if names_eq (b ∷ up) x then some i else walk c x)
  unfolding walk names_eq
  walk-hung path [] = refl
  walk-hung path (y ∷ t) = elim (Bool-cases (names_eq (b ∷ up) t)) [
    | inl same ↦
        let t-is : b ∷ up ≡ t = (names_eq_iff (b ∷ up) t).0 same in
        rw (walk-hung path t, same, ← t-is, names_eq_cons b up)
          (ground (arith, entry-hung c d es b i path dir i y, loose.unreached up, loose.bare y))
    | inr other ↦ elim (Option-cases (walk c t)) [
      | inl e ↦ rw (walk-hung path t, other, e) (ground (arith, names_eq_iff up t))
      | inr (k, e) ↦
          rw (walk-hung path t, other, e, entry-hung c d es b i path dir k y, unshared-eq t k e)
            (ground arith)
    ]
  ]

  at-ne-loose : d ≢ i
  at-ne-loose e = loose.unreached up (rw e at at)

  agree-hung :
      Valid (b ∷ up)
      → (x : Names) → Valid x
      → node (hung c d es b i (render (b ∷ up))) x ≡ walk (hung c d es b i (render (b ∷ up))) x
  agree-hung v [] w = rw walk-hung (unfold walk names_eq in refl)
  agree-hung v (y ∷ t) w = rw (
    walk-hung (render (b ∷ up)) (y ∷ t),
    lookup-insert (render (b ∷ up)) (render (y ∷ t)) i c.files,
    bytes_eq-render (b ∷ up) (y ∷ t) v w,
    ← wf.agree (y ∷ t) w,
  )

  live-hung :
      (path : Bytes) (x : Names) (k : ℕ)
      → walk (hung c d es b i path) x ≡ some k
      → (p : Object F) × ((hung c d es b i path).objects k ≡ some p)
  live-hung path x k e = elim (Bool-cases (d == k)) [
    | inl same ↦ (directory (insert b i es), rw same)
    | inr other ↦ elim (Bool-cases (names_eq (b ∷ up) x)) [
      | inl new ↦ (o, ground (arith, walk-hung path x, loose.held))
      | inr old ↦
          let (p, held) = wf.live x k (ground (arith, walk-hung path x)) in (p, ground arith)
    ]
  ]

  root-hung : (path : Bytes) → IsDirectory (hung c d es b i path) 0
  root-hung path = elim (Bool-cases (d == 0)) [
    | inl same ↦ (insert b i es, rw same)
    | inr other ↦ (wf.root.0, ground (arith, wf.root.1))
  ]

  pub hung-IsWellFormed : Valid (b ∷ up) → IsWellFormed (hung c d es b i (render (b ∷ up)))
  hung-IsWellFormed v =
      let path = render (b ∷ up) in
      record {
        agree = agree-hung v;
        unshared = λ x y k p q. ground (
          arith,
          walk-hung path x,
          walk-hung path y,
          names_eq_iff (b ∷ up) x,
          names_eq_iff (b ∷ up) y,
          loose.unreached x,
          loose.unreached y,
          wf.unshared x y k,
        );
        live = live-hung path;
        root = root-hung path;
        nameless = ground (
          arith,
          lookup-insert path [] i c.files,
          bytes_eq_iff path [],
          wf.nameless,
          render-ne-nil b up,
        );
        rooted = ground (
          arith,
          lookup-insert path (b'/' ∷ []) i c.files,
          bytes_eq_iff path (b'/' ∷ []),
          wf.rooted,
          render-ne-slash b up v,
        );
        bound = λ k h. ground (arith, wf.bound k h);
      }

  -- What else is loose stays so.
  pub IsLoose-hung :
      (path : Bytes) (j : ℕ) (p : Object F)
      → j ≢ i
      → IsLoose c j p
      → IsLoose (hung c d es b i path) j p
  IsLoose-hung path j p ne l =
      let off : d ≢ j = λ e. l.unreached up (rw e at at) in
      record {
        held = ground (arith, l.held);
        unreached = λ x e. ground (arith, walk-hung path x, l.unreached x);
        bare = λ y. ground (arith, entry-hung c d es b i path dir j y, l.bare y);
      }
