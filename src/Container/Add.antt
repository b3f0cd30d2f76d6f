-- ===== src/Container/Add.antt =====
-- `DirectoryContainer::add` on a path that is not there yet.
use gitlstreefs.Base.{
  ℕ, suc, ◌≡◌, sym, ◌∙◌, none, some, ◌∷◌, arith, Bytes, insert, length, length-append,
}
use gitlstreefs.Container.{
  Object, leaf, DirectoryContainer, alloc, get, directory_add, maybe_create_parent_dir, add, ◌>>=◌,
}
use gitlstreefs.Container.Names.{
  Names, render, length-render, Valid, dir_name-render, base_name-render,
}
use gitlstreefs.Container.Walk.{walk, node, IsDirectory, IsWellFormed}
use gitlstreefs.Container.Create.{
  IsBare, alloc-IsWellFormed, IsOpen, IsOpen-alloc, IsAbove, Attached, grown, directory_add-grown,
  Attached-grown, create_found, ancestors, maybe_create_parent_dir-Created,
}

module _ {ℓ} {F : Type ℓ} where
  add_steps :
      (c : DirectoryContainer F) (o : Object F) (b : Bytes) (up : Names)
      → Valid (b ∷ up)
      → add c (render (b ∷ up)) o ≡ (
          maybe_create_parent_dir (suc (length (render (b ∷ up)))) (alloc c o) (render up)
          >>= λ (c1, d).
              directory_add
                (record c1 { files = insert (render (b ∷ up)) c.next c1.files })
                d
                b
                c.next)
  unfolding add
  add_steps c o b up v = simp (dir_name-render b up v, base_name-render b up v)

  -- In a well-formed container, on a path that is not there and above which everything that exists
  -- is a directory, `add` of an object that holds nothing itself succeeds: the new object is
  -- reached by a walk from the root, it is the object given, every object reached before is reached
  -- by the same path, only the path and directories on the way to it are new, files and unattached
  -- objects keep their contents, and the container is well formed again.
  pub add-Attached :
      (c : DirectoryContainer F) (o : Object F) (b : Bytes) (up : Names)
      → IsWellFormed c
      → IsBare o
      → Valid (b ∷ up)
      → IsOpen c up
      → walk c (b ∷ up) ≡ none
      → (c' : DirectoryContainer F) × (add c (render (b ∷ up)) o ≡ some c') × Attached c o b up c'
  add-Attached c o b up wf bare v op free =
      let path = render (b ∷ up) in
      let (c1, d, run, k) =
        maybe_create_parent_dir-Created up (suc (length path)) (alloc c o)
          (alloc-IsWellFormed c wf o) v.2 (IsOpen-alloc c wf o up op)
          (omega (arith, length-render up, length-append (render up) (b'/' ∷ b))) in
      (
        grown c wf o bare b up v free c1 d k,
        add_steps c o b up v ∙ rw run (directory_add-grown c wf o bare b up v free c1 d k),
        Attached-grown c wf o bare b up v free c1 d k,
      )

  -- In a well-formed container, after `add` of an object that holds nothing itself on a path that
  -- is not there and above which everything that exists is a directory, `get` of the path returns
  -- the object.
  pub get-add :
      (c : DirectoryContainer F) (o : Object F) (b : Bytes) (up : Names)
      → IsWellFormed c
      → IsBare o
      → Valid (b ∷ up)
      → IsOpen c up
      → walk c (b ∷ up) ≡ none
      → (c' : DirectoryContainer F) × (i : ℕ) × (add c (render (b ∷ up)) o ≡ some c')
        × (get c' (render (b ∷ up)) ≡ some i)
        × (c'.objects i ≡ some o)
  get-add c o b up wf bare v op free =
      let (c', run, a) = add-Attached c o b up wf bare v op free in
      (c', c.next, run, a.well_formed.agree (b ∷ up) v ∙ a.reached, a.held)

  -- In a well-formed container, `add` of an object that holds nothing itself on a path that is not
  -- there and above which everything that exists is a directory leaves every file where `get` found
  -- it, with its contents.
  pub get-add_other :
      (c : DirectoryContainer F) (o : Object F) (b : Bytes) (up : Names)
      → IsWellFormed c
      → IsBare o
      → Valid (b ∷ up)
      → IsOpen c up
      → walk c (b ∷ up) ≡ none
      → (a : Bytes) (x : Names) (i : ℕ) (f : F) → Valid (a ∷ x)
      → get c (render (a ∷ x)) ≡ some i
      → c.objects i ≡ some (leaf f)
      → (c' : DirectoryContainer F) × (add c (render (b ∷ up)) o ≡ some c')
        × (get c' (render (a ∷ x)) ≡ some i)
        × (c'.objects i ≡ some (leaf f))
  get-add_other c o b up wf bare v op free a x i f w at held =
      let (c', run, t) = add-Attached c o b up wf bare v op free in
      (
        c',
        run,
        t.well_formed.agree (a ∷ x) w ∙ t.kept (a ∷ x) i (sym (wf.agree (a ∷ x) w) ∙ at),
        t.leaves i f held,
      )

  -- In a well-formed container, after `add` of an object that holds nothing itself on a path that
  -- is not there and above which everything that exists is a directory, every path on the way to
  -- the new one is in the index and is a directory.
  pub parents-add :
      (c : DirectoryContainer F) (o : Object F) (b : Bytes) (up : Names)
      → IsWellFormed c
      → IsBare o
      → Valid (b ∷ up)
      → IsOpen c up
      → walk c (b ∷ up) ≡ none
      → (x : Names) → Valid x
      → IsAbove x up
      → (c' : DirectoryContainer F) × (i : ℕ) × (add c (render (b ∷ up)) o ≡ some c')
        × (node c' x ≡ some i)
        × IsDirectory c' i
  parents-add c o b up wf bare v op free x w above =
      let (c', run, t) = add-Attached c o b up wf bare v op free in
      let (i, at, dir) = ancestors c' b up t.reached x above in
      (c', i, run, t.well_formed.agree x w ∙ at, dir)

  -- In a well-formed container, `add` of a path whose parent is a file meets undefined behaviour:
  -- the cast of the file to a directory is not tested.
  pub add_under_file :
      (c : DirectoryContainer F) (o : Object F) (b a : Bytes) (up : Names) (i : ℕ) (f : F)
      → IsWellFormed c
      → Valid (b ∷ a ∷ up)
      → walk c (a ∷ up) ≡ some i
      → c.objects i ≡ some (leaf f)
      → add c (render (b ∷ a ∷ up)) o ≡ none
  add_under_file c o b a up i f wf v at held =
      let found =
        create_found (alloc c o) (alloc-IsWellFormed c wf o) (length (render (b ∷ a ∷ up))) a up i
          (wf.agree (a ∷ up) v.2 ∙ at) in
      add_steps c o b (a ∷ up) v
      ∙ rw found (unfold directory_add in ground (arith, wf.bound c.next))
