-- ===== src/Container/Create.antt =====
-- `MaybeCreateParentDir` makes the missing directories on a path, and nothing else.
use gitlstreefs.Base.{
  ℕ, zero, suc, ◌≤◌, ◌<◌, ◌≡◌, ◌≢◌, ◌⊎◌, inl, inr, refl, sym, ◌∙◌, false, Option, none, some, [],
  ◌∷◌, arith, if◌then◌else◌, Option-cases, Bool-cases, Bytes, bytes_eq, bytes_eq_iff, Map, lookup,
  insert, length,
}
use gitlstreefs.Container.{
  Object, leaf, directory, as_directory, DirectoryContainer, alloc, get, directory_add, parent_of,
  create_directory, maybe_create_parent_dir, ◌>>=◌,
}
use gitlstreefs.Container.Names.{
  Names, render, render-ne-nil, Valid, names_eq, names_eq_iff, dir_name-render, base_name-render,
}
use gitlstreefs.Container.Walk.{walk, node, IsDirectory, IsWellFormed, IsLoose}
use gitlstreefs.Container.Attach.{
  hung, directory_add-hung, walk-hung, hung-IsWellFormed, IsLoose-hung,
}

-- An object that holds no entries when it is made.
abbrev pub IsBare {ℓ} : {F : Type ℓ} → Object F → Type 0
IsBare (leaf f) = Unit
IsBare (directory es) = es ≡ []

IsBare-lookup {ℓ} :
    {F : Type ℓ} (o : Object F) (b : Bytes)
    → IsBare o
    → (as_directory o >>= λ es. lookup b es) ≡ none
unfolding lookup
IsBare-lookup (leaf f) b h = refl
IsBare-lookup (directory es) b h = rw h

module _ {ℓ} {F : Type ℓ} (c : DirectoryContainer F) (wf : IsWellFormed c) (o : Object F) where
  walk-next : (x : Names) → walk c x ≢ some c.next
  walk-next x e = let (p, held) = wf.live x c.next e in cc (held, wf.bound c.next (omega arith))

  pub walk-alloc : (x : Names) → walk (alloc c o) x ≡ walk c x
  unfolding walk
  walk-alloc [] = refl
  walk-alloc (b ∷ up) = elim (Option-cases (walk c up)) [
    | inl e ↦ rw (walk-alloc up, e)
    | inr (k, e) ↦ rw (walk-alloc up, e) (ground (arith, walk-next up))
  ]

  agree-alloc : (x : Names) → Valid x → node (alloc c o) x ≡ walk (alloc c o) x
  agree-alloc [] v = unfold walk in refl
  agree-alloc (b ∷ up) v = wf.agree (b ∷ up) v ∙ sym (walk-alloc (b ∷ up))

  pub alloc-IsWellFormed : IsWellFormed (alloc c o)
  alloc-IsWellFormed = record {
    agree = agree-alloc;
    unshared = λ x y i p q. wf.unshared x y i (sym (walk-alloc x) ∙ p) (sym (walk-alloc y) ∙ q);
    live = λ x i e.
        let (p, held) = wf.live x i (sym (walk-alloc x) ∙ e) in
        (p, ground (arith, wf.bound c.next));
    root = (wf.root.0, ground (arith, wf.root.1, wf.bound c.next));
    nameless = wf.nameless;
    rooted = wf.rooted;
    bound = λ i h. ground (arith, wf.bound i);
  }

  pub alloc-IsLoose : IsBare o → IsLoose (alloc c o) c.next o
  alloc-IsLoose bare = record {
    held = ground arith;
    unreached = λ x e. walk-next x (sym (walk-alloc x) ∙ e);
    bare = λ b. ground (arith, IsBare-lookup o b bare);
  }

  pub IsLoose-alloc : (j : ℕ) (p : Object F) → IsLoose c j p → IsLoose (alloc c o) j p
  IsLoose-alloc j p l = record {
    held = ground (arith, l.held, wf.bound c.next);
    unreached = λ x e. l.unreached x (sym (walk-alloc x) ∙ e);
    bare = λ y. ground (arith, l.bare y, l.held, wf.bound c.next);
  }

-- `x` is `up` or one of the directories on the way to it.
abbrev pub IsAbove : Names → Names → Type 0
IsAbove x [] = x ≡ []
IsAbove x (b ∷ up) = (x ≡ b ∷ up) ⊎ IsAbove x up

length-IsAbove : (x up : Names) → IsAbove x up → length x ≤ length up
length-IsAbove x [] h = rw h (omega arith)
length-IsAbove x (b ∷ up) (inl e) = rw e (omega arith)
length-IsAbove x (b ∷ up) (inr h) = omega (arith, length-IsAbove x up h)

-- What exists on the path is a directory.
abbrev pub IsOpen {ℓ} : {F : Type ℓ} → DirectoryContainer F → Names → Type ℓ
IsOpen c [] = Unit
IsOpen c (b ∷ up) = ((i : ℕ) → walk c (b ∷ up) ≡ some i → IsDirectory c i) × IsOpen c up

pub IsOpen-alloc {ℓ} :
    {F : Type ℓ} (c : DirectoryContainer F) (wf : IsWellFormed c) (o : Object F) (up : Names)
    → IsOpen c up
    → IsOpen (alloc c o) up
IsOpen-alloc c wf o [] h = tt
IsOpen-alloc c wf o (b ∷ up) h = (
  λ i e.
      let (es, held) = h.0 i (sym (walk-alloc c wf o (b ∷ up)) ∙ e) in
      (es, ground (arith, wf.bound c.next)),
  IsOpen-alloc c wf o up h.1,
)

-- From `c` to `c'` the path `up` came to exist, as a directory `d`, and nothing else changed.
pub record Created {ℓ} {F : Type ℓ} (c : DirectoryContainer F) (up : Names)
    (c' : DirectoryContainer F) (d : ℕ) : Type ℓ where
  pub well_formed : IsWellFormed c'
  pub reached : walk c' up ≡ some d
  pub opened : IsDirectory c' d
  pub kept : (x : Names) (i : ℕ) → walk c x ≡ some i → walk c' x ≡ some i
  pub only : (x : Names) → (walk c' x ≡ walk c x) ⊎ IsAbove x up
  pub loose : (j : ℕ) (p : Object F) → IsLoose c j p → IsLoose c' j p
  pub leaves : (i : ℕ) (f : F) → c.objects i ≡ some (leaf f) → c'.objects i ≡ some (leaf f)

module _ {ℓ} {F : Type ℓ} where
  Created-here :
      (c : DirectoryContainer F) (up : Names) (d : ℕ)
      → IsWellFormed c
      → walk c up ≡ some d
      → IsDirectory c d
      → Created c up c d
  Created-here c up d wf at dir = record {
    well_formed = wf;
    reached = at;
    opened = dir;
    kept = λ x i e. e;
    only = λ x. inl refl;
    loose = λ j p l. l;
    leaves = λ i f e. e;
  }

-- From `c` to `h` the object `o` came to stand at the path `b ∷ up`, and nothing else changed but
-- for missing directories on the way.
pub record Attached {ℓ} {F : Type ℓ} (c : DirectoryContainer F) (o : Object F) (b : Bytes)
    (up : Names) (h : DirectoryContainer F) : Type ℓ where
  pub well_formed : IsWellFormed h
  pub reached : walk h (b ∷ up) ≡ some c.next
  pub held : h.objects c.next ≡ some o
  pub kept : (x : Names) (i : ℕ) → walk c x ≡ some i → walk h x ≡ some i
  pub only : (x : Names) → (walk h x ≡ walk c x) ⊎ IsAbove x (b ∷ up)
  pub loose : (j : ℕ) (p : Object F) → IsLoose c j p → IsLoose h j p
  pub leaves : (i : ℕ) (f : F) → c.objects i ≡ some (leaf f) → h.objects i ≡ some (leaf f)

-- The object made first, then its parents, then the entry in the directory `d`.
module _ {ℓ} {F : Type ℓ} (c : DirectoryContainer F) (wf : IsWellFormed c) (o : Object F)
    (bare : IsBare o) (b : Bytes) (up : Names) (v : Valid (b ∷ up)) (free : walk c (b ∷ up) ≡ none)
    (c' : DirectoryContainer F) (d : ℕ) (k : Created (alloc c o) up c' d) where
  still_free : walk c' (b ∷ up) ≡ none
  still_free = elim (k.only (b ∷ up)) [
    | inl e ↦ e ∙ walk-alloc c wf o (b ∷ up) ∙ free
    | inr a ↦ absurd (omega (arith, length-IsAbove (b ∷ up) up a))
  ]

  pub unlisted : lookup b k.opened.0 ≡ none
  unfolding walk
  unlisted = ground (arith, still_free, k.reached, k.opened.1)

  made-IsLoose : IsLoose c' c.next o
  made-IsLoose = k.loose c.next o (alloc-IsLoose c wf o bare)

  abbrev pub grown : DirectoryContainer F
  grown = hung c' d k.opened.0 b c.next (render (b ∷ up))

  pub directory_add-grown :
      directory_add (record c' { files = insert (render (b ∷ up)) c.next c'.files }) d b c.next
      ≡ some grown
  directory_add-grown =
      directory_add-hung c' d k.opened.0 b c.next (render (b ∷ up)) k.opened.1 unlisted

  walk-grown : (x : Names) → walk grown x ≡ (if names_eq (b ∷ up) x then some c.next else walk c' x)
  walk-grown =
      walk-hung c' k.well_formed up b d k.opened.0 k.reached k.opened.1 unlisted c.next o
        made-IsLoose (render (b ∷ up))

  kept-grown : (x : Names) (i : ℕ) → walk c x ≡ some i → walk grown x ≡ some i
  kept-grown x i e =
      let still = k.kept x i (walk-alloc c wf o x ∙ e) in
      ground (arith, walk-grown x, names_eq_iff (b ∷ up) x, still_free)

  only-grown : (x : Names) → (walk grown x ≡ walk c x) ⊎ IsAbove x (b ∷ up)
  only-grown x = elim (Bool-cases (names_eq (b ∷ up) x)) [
    | inl new ↦ inr (inl (sym ((names_eq_iff (b ∷ up) x).0 new)))
    | inr old ↦ elim (k.only x) [
      | inl e ↦ inl (walk-grown x ∙ rw old (e ∙ walk-alloc c wf o x))
      | inr a ↦ inr (inr a)
    ]
  ]

  IsLoose-grown : (j : ℕ) (p : Object F) → IsLoose c j p → IsLoose grown j p
  IsLoose-grown j p l =
      IsLoose-hung c' k.well_formed up b d k.opened.0 k.reached k.opened.1 unlisted c.next o
        made-IsLoose (render (b ∷ up)) j p (λ e. ground (arith, l.held, wf.bound j))
        (k.loose j p (IsLoose-alloc c wf o j p l))

  leaves-grown : (i : ℕ) (f : F) → c.objects i ≡ some (leaf f) → grown.objects i ≡ some (leaf f)
  leaves-grown i f e = ground (arith, k.leaves i f, k.opened.1, wf.bound c.next)

  pub Attached-grown : Attached c o b up grown
  Attached-grown = record {
    well_formed =
        hung-IsWellFormed c' k.well_formed up b d k.opened.0 k.reached k.opened.1 unlisted c.next o
          made-IsLoose v;
    reached = walk-grown (b ∷ up) ∙ rw ((names_eq_iff (b ∷ up) (b ∷ up)).1 refl);
    held = ground (arith, made-IsLoose.held, k.opened.1, made-IsLoose.unreached up, k.reached);
    kept = kept-grown;
    only = only-grown;
    loose = IsLoose-grown;
    leaves = leaves-grown;
  }

entry-IsDirectory {ℓ} :
    {F : Type ℓ} (o : Option (Object F)) (b : Bytes) {k : ℕ}
    → (o >>= as_directory >>= λ es. lookup b es) ≡ some k
    → (es : Map ℕ) × (o ≡ some (directory es))
entry-IsDirectory none b e = cc
entry-IsDirectory (some (leaf f)) b e = cc
entry-IsDirectory (some (directory es)) b e = (es, refl)

holder {ℓ} :
    {F : Type ℓ} (c : DirectoryContainer F) (b : Bytes) (up : Names) {k : ℕ}
    → walk c (b ∷ up) ≡ some k
    → (d : ℕ) × (walk c up ≡ some d) × IsDirectory c d
unfolding walk
holder c b up e = elim (Option-cases (walk c up)) [
  | inl n ↦ absurd (cc (rw n at e))
  | inr (d, at) ↦ (d, at, entry-IsDirectory (c.objects d) b (rw at at e))
]

-- What lies on the way to an object that is reached is a directory.
pub ancestors {ℓ} :
    {F : Type ℓ} (c : DirectoryContainer F) (b : Bytes) (up : Names) {k : ℕ}
    → walk c (b ∷ up) ≡ some k
    → (x : Names) → IsAbove x up
    → (i : ℕ) × (walk c x ≡ some i) × IsDirectory c i
ancestors c b [] e x a = rw a (holder c b [] e)
ancestors c b (b' ∷ up) e x (inl q) = rw q (holder c b (b' ∷ up) e)
ancestors c b (b' ∷ up) e x (inr a) = ancestors c b' up (holder c b (b' ∷ up) e).1 x a

module _ {ℓ} {F : Type ℓ} (c : DirectoryContainer F) (wf : IsWellFormed c) (fuel : ℕ) where
  create_root : maybe_create_parent_dir (suc fuel) c [] ≡ some (c, 0)
  unfolding maybe_create_parent_dir bytes_eq
  create_root = refl

  pub create_found :
      (b : Bytes) (up : Names) (i : ℕ)
      → get c (render (b ∷ up)) ≡ some i
      → maybe_create_parent_dir (suc fuel) c (render (b ∷ up)) ≡ some (c, i)
  unfolding maybe_create_parent_dir
  create_found b up i e = ground (arith, bytes_eq_iff (render (b ∷ up)) [], render-ne-nil b up)

  -- Looking the parent up first changes nothing.
  parent_first :
      (up : Names)
      → parent_of (maybe_create_parent_dir (suc fuel)) c (render up)
        ≡ maybe_create_parent_dir (suc fuel) c (render up)
  unfolding parent_of
  parent_first [] = rw (wf.nameless, parent_of)
  parent_first (b ∷ up) = elim (Option-cases (get c (render (b ∷ up)))) [
    | inl e ↦ rw (e, parent_of)
    | inr (i, e) ↦ rw (e, parent_of) (sym (create_found b up i e))
  ]

module _ {ℓ} {F : Type ℓ} (c : DirectoryContainer F) (wf : IsWellFormed c) (fuel : ℕ) where
  create_step :
      (b : Bytes) (up : Names)
      → bytes_eq (render (b ∷ up)) [] ≡ false
      → get c (render (b ∷ up)) ≡ none
      → maybe_create_parent_dir (suc (suc fuel)) c (render (b ∷ up))
        ≡ create_directory (maybe_create_parent_dir (suc fuel)) c (render (b ∷ up))
  unfolding maybe_create_parent_dir
  create_step b up ne e = rw (ne, e)

  create_missing :
      (b : Bytes) (up : Names)
      → Valid (b ∷ up)
      → get c (render (b ∷ up)) ≡ none
      → maybe_create_parent_dir (suc (suc fuel)) c (render (b ∷ up)) ≡ (
          maybe_create_parent_dir (suc fuel) (alloc c (directory [])) (render up) >>= λ (c2, p).
          directory_add (record c2 { files = insert (render (b ∷ up)) c.next c2.files }) p b c.next
          >>= λ c4. some (c4, c.next))
  create_missing b up v e =
      let bytes_ne : bytes_eq (render (b ∷ up)) [] ≡ false =
        ground (arith, bytes_eq_iff (render (b ∷ up)) [], render-ne-nil b up) in
      create_step b up bytes_ne e
      ∙ unfold create_directory in
        simp (
          dir_name-render b up v,
          base_name-render b up v,
          parent_first (alloc c (directory [])) (alloc-IsWellFormed c wf (directory [])) fuel up,
        )

module _ {ℓ} {F : Type ℓ} where
  -- In a well-formed container, where everything that exists on a path is a directory and the fuel
  -- exceeds the number of names in the path, `MaybeCreateParentDir` succeeds: the path is a
  -- directory afterwards, at the pointer returned, only directories on the path are new, and the
  -- container is well formed again.
  pub maybe_create_parent_dir-Created :
      (up : Names) (fuel : ℕ) (c : DirectoryContainer F)
      → IsWellFormed c
      → Valid up
      → IsOpen c up
      → length up < fuel
      → (c' : DirectoryContainer F) × (d : ℕ) × (maybe_create_parent_dir fuel c (render up)
          ≡ some (c', d))
        × Created c up c' d
  maybe_create_parent_dir-Created up zero c wf v op h = absurd (omega arith)
  maybe_create_parent_dir-Created [] (suc fuel) c wf v op h =
      (c, 0, create_root c wf fuel, Created-here c [] 0 wf (unfold walk in refl) wf.root)
  maybe_create_parent_dir-Created (b ∷ up) (suc zero) c wf v op h = absurd (omega arith)
  maybe_create_parent_dir-Created (b ∷ up) (suc (suc fuel)) c wf v op h =
      elim (Option-cases (walk c (b ∷ up))) [
        | inl e ↦
            let fresh : Object F = directory [] in
            let (c2, p, run, k) =
              maybe_create_parent_dir-Created up (suc fuel) (alloc c fresh)
                (alloc-IsWellFormed c wf fresh) v.2 (IsOpen-alloc c wf fresh up op.1)
                (omega arith) in
            let bare : IsBare fresh = refl in
            let a = Attached-grown c wf fresh bare b up v e c2 p k in
            (
              grown c wf fresh bare b up v e c2 p k,
              c.next,
              create_missing c wf fuel b up v (wf.agree (b ∷ up) v ∙ e)
                  ∙ rw run (rw (directory_add-grown c wf fresh bare b up v e c2 p k)),
              record {
                well_formed = a.well_formed;
                reached = a.reached;
                opened = ([], a.held);
                kept = a.kept;
                only = a.only;
                loose = a.loose;
                leaves = a.leaves;
              },
            )
        | inr (i, e) ↦ (
          c,
          i,
          create_found c wf (suc fuel) b up i (wf.agree (b ∷ up) v ∙ e),
          Created-here c (b ∷ up) i wf e (op.0 i e),
        )
      ]
