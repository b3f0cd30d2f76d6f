-- ===== src/Container/Walk.antt =====
-- The tree as a walk from the root, the index as `files_`, and the invariant that joins them.
use gitlstreefs.Base.{ℕ, ◌≤◌, ◌≡◌, ◌≢◌, Option, none, some, [], ◌∷◌, Bytes, Map, lookup}
use gitlstreefs.Container.{Object, directory, DirectoryContainer, get, entries_of, ◌>>=◌}
use gitlstreefs.Container.Names.{Names, render, Valid}

module _ {ℓ} {F : Type ℓ} where
  -- The entry `b` of the object `i`, if that is a directory.
  abbrev pub entry : DirectoryContainer F → ℕ → Bytes → Option ℕ
  entry c i b = entries_of c i >>= λ es. lookup b es

  -- The object that a walk from the root through the directories' entries reaches.
  unfoldable pub walk : DirectoryContainer F → Names → Option ℕ
  walk c [] = some 0
  walk c (b ∷ up) = walk c up >>= λ d. entry c d b

  -- The object that the index gives.
  abbrev pub node : DirectoryContainer F → Names → Option ℕ
  node c [] = some 0
  node c (b ∷ up) = get c (render (b ∷ up))

  abbrev pub IsDirectory : DirectoryContainer F → ℕ → Type ℓ
  IsDirectory c i = (es : Map ℕ) × (c.objects i ≡ some (directory es))

  -- The index and the tree agree; the tree has no sharing; nothing that was freed is reached.
  pub record IsWellFormed (c : DirectoryContainer F) : Type ℓ where
    pub agree : (x : Names) → Valid x → node c x ≡ walk c x
    pub unshared : (x y : Names) (i : ℕ) → walk c x ≡ some i → walk c y ≡ some i → x ≡ y
    pub live : (x : Names) (i : ℕ) → walk c x ≡ some i → (o : Object F) × (c.objects i ≡ some o)
    pub root : IsDirectory c 0
    pub nameless : get c [] ≡ none
    pub rooted : get c (b'/' ∷ []) ≡ some 0
    pub bound : (i : ℕ) → c.next ≤ i → c.objects i ≡ none

  -- An object that no directory holds yet, and that holds nothing itself.
  pub record IsLoose (c : DirectoryContainer F) (i : ℕ) (o : Object F) : Type ℓ where
    pub held : c.objects i ≡ some o
    pub unreached : (x : Names) → walk c x ≢ some i
    pub bare : (b : Bytes) → entry c i b ≡ none
