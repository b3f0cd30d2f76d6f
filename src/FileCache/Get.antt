-- ===== src/FileCache/Get.antt =====
-- What `Cache::get` returns.
use gitlstreefs.Base.{
  ◌≡◌, ◌≢◌, refl, ap, ◌∙◌, inl, inr, Bool-cases, Option, Option-cases, none, some, [], ◌∷◌, ◌++◌,
  arith, Bytes, bytes_eq, bytes_eq_iff, bytes_eq_refl, lookup, insert, emplace, lookup-insert,
}
use gitlstreefs.Base.Outcome.{done}
use gitlstreefs.FileCache.{Cache, cache_file_path, map_file, store_file, get}

-- Whatever is in memory or on disk is what belongs to its name.
pub record IsHonest (cache_dir : Bytes) (contents : Bytes → Bytes) (c : Cache) : Type 0 where
  pub mapped : (name m : Bytes) → lookup name c.mapped_files ≡ some m → m ≡ contents name
  pub stored :
      (name path m : Bytes)
      → cache_file_path cache_dir name ≡ done path
      → lookup path c.disk ≡ some m
      → m ≡ contents name

-- What the documentation of `mmap` says: an empty file cannot be mapped.
pub record IsMmap (mmap : Bytes → Option Bytes) : Type 0 where
  pub empty : mmap [] ≡ none
  pub whole : (m : Bytes) → m ≢ [] → mmap m ≡ some m

append-cancel : (p s t : Bytes) → p ++ s ≡ p ++ t → s ≡ t
append-cancel [] s t e = e
append-cancel (x ∷ p) s t e = append-cancel p s t (cc e)

cache_file_path-injective :
    (dir m n path : Bytes)
    → cache_file_path dir m ≡ done path
    → cache_file_path dir n ≡ done path
    → m ≡ n
unfolding cache_file_path
cache_file_path-injective dir (a ∷ b ∷ m) (c ∷ d ∷ n) path e f =
    let same : a ∷ b ∷ b'/' ∷ m ≡ c ∷ d ∷ b'/' ∷ n =
      append-cancel dir (a ∷ b ∷ b'/' ∷ m) (c ∷ d ∷ b'/' ∷ n) (cc (e, f)) in
    cc same
cache_file_path-injective dir [] n path e f = cc e
cache_file_path-injective dir (a ∷ []) n path e f = cc e
cache_file_path-injective dir (a ∷ b ∷ m) [] path e f = cc f
cache_file_path-injective dir (a ∷ b ∷ m) (c ∷ []) path e f = cc f

module _ (cache_dir : Bytes) (mmap : Bytes → Option Bytes) (contents : Bytes → Bytes)
    (name : Bytes) where
  IsHonest-mapped :
      (c : Cache)
      → IsHonest cache_dir contents c
      → IsHonest cache_dir contents
          (record c { mapped_files = insert name (contents name) c.mapped_files })
  IsHonest-mapped c h = record {
    mapped = λ n m e. ground (
      arith,
      lookup-insert name n (contents name) c.mapped_files,
      bytes_eq_iff name n,
      h.mapped n m,
    );
    stored = h.stored;
  }

  IsHonest-stored :
      (c : Cache) (path : Bytes)
      → cache_file_path cache_dir name ≡ done path
      → IsHonest cache_dir contents c
      → IsHonest cache_dir contents (record c { disk = insert path (contents name) c.disk })
  IsHonest-stored c path p h = record {
    mapped = h.mapped;
    stored = λ n q m p' e. elim (Bool-cases (bytes_eq path q)) [
      | inl same ↦
          let at : path ≡ q = (bytes_eq_iff path q).0 same in
          let named : n ≡ name = cache_file_path-injective cache_dir n name q p' (p ∙ ap done at) in
          ground (arith, lookup-insert path q (contents name) c.disk, ap contents named)
      | inr other ↦ h.stored n q m p' (ground (arith, lookup-insert path q (contents name) c.disk))
    ];
  }

  -- The right contents came back, and all is as it should be.
  abbrev Got : Option Bytes × Cache → Type 0
  Got r =
      (r.0 ≡ some (contents name))
      × IsHonest cache_dir contents r.1
      × (lookup name r.1.mapped_files ≡ some (contents name))

  inserted :
      (c : Cache) → lookup name (insert name (contents name) c.mapped_files) ≡ some (contents name)
  inserted c = lookup-insert name name (contents name) c.mapped_files ∙ rw (bytes_eq_refl name)

  map_file-missing :
      (c : Cache)
      → IsMmap mmap
      → contents name ≢ []
      → lookup name c.mapped_files ≡ none
      → map_file cache_dir mmap name (contents name) c ≡ (
        some (contents name),
        record c { mapped_files = insert name (contents name) c.mapped_files },
      )
  unfolding map_file emplace
  map_file-missing c mm full missing =
      ground (arith, mm.whole (contents name) full, missing, inserted c)

  map_file-Got :
      (c : Cache)
      → IsMmap mmap
      → IsHonest cache_dir contents c
      → contents name ≢ []
      → lookup name c.mapped_files ≡ none
      → Got (map_file cache_dir mmap name (contents name) c)
  map_file-Got c mm h full missing =
      rw (map_file-missing c mm full missing) (refl, IsHonest-mapped c h, inserted c)

  store_file-Got :
      (c : Cache) (path : Bytes)
      → IsMmap mmap
      → IsHonest cache_dir contents c
      → contents name ≢ []
      → cache_file_path cache_dir name ≡ done path
      → Got (store_file cache_dir mmap name path (contents name) c)
  unfolding store_file
  store_file-Got c path mm h full p = elim (Option-cases (lookup name c.mapped_files)) [
    | inl missing ↦
        rw (missing, store_file)
          (map_file-Got (record c { disk = insert path (contents name) c.disk }) mm
            (IsHonest-stored c path p h) full missing)
    | inr (m, there) ↦
        rw (there, store_file)
          (ap some (h.mapped name m there), h, there ∙ ap some (h.mapped name m there))
  ]

  get-disk :
      (fetched : Option Bytes) (others : Cache → Cache) (c : Cache) (path m : Bytes)
      → lookup name c.mapped_files ≡ none
      → cache_file_path cache_dir name ≡ done path
      → lookup path c.disk ≡ some m
      → get cache_dir mmap fetched others name c ≡ done (map_file cache_dir mmap name m c)
  unfolding get
  get-disk fetched others c path m e p f = ground (arith, e, p, f)

  get-fetched :
      (m : Bytes) (others : Cache → Cache) (c : Cache) (path : Bytes)
      → lookup name c.mapped_files ≡ none
      → cache_file_path cache_dir name ≡ done path
      → lookup path c.disk ≡ none
      → get cache_dir mmap (some m) others name c
        ≡ done (store_file cache_dir mmap name path m (others c))
  unfolding get
  get-fetched m others c path e p f = ground (arith, e, p, f)

  get-mapped :
      (fetched : Option Bytes) (others : Cache → Cache) (c : Cache) (m : Bytes)
      → lookup name c.mapped_files ≡ some m
      → get cache_dir mmap fetched others name c ≡ done (some m, c)
  unfolding get
  get-mapped fetched others c m e = rw (e, get)

  -- Where what is in memory and on disk under a name is what belongs to the name, before and after
  -- other threads run, the fetch function gives what belongs to the name and this is not empty,
  -- `mmap` maps whole files, and the name has its two characters, `get` returns what belongs to the
  -- name, whether it is mapped, on disk or has to be fetched; afterwards the name is mapped, and
  -- what is in memory and on disk is right again.
  pub get-IsHonest :
      (others : Cache → Cache) (c : Cache) (path : Bytes)
      → IsMmap mmap
      → IsHonest cache_dir contents c
      → IsHonest cache_dir contents (others c)
      → contents name ≢ []
      → cache_file_path cache_dir name ≡ done path
      → (r : Option Bytes × Cache) × (get cache_dir mmap (some (contents name)) others name c
          ≡ done r)
        × (r.0 ≡ some (contents name))
        × IsHonest cache_dir contents r.1
        × (lookup name r.1.mapped_files ≡ some (contents name))
  get-IsHonest others c path mm h h' full p = elim (Option-cases (lookup name c.mapped_files)) [
    | inr (m, there) ↦
        let right = ap some (h.mapped name m there) in
        ((some m, c), get-mapped (some (contents name)) others c m there, right, h, there ∙ right)
    | inl missing ↦ elim (Option-cases (lookup path c.disk)) [
      | inl absent ↦
          let got = store_file-Got (others c) path mm h' full p in
          (
            store_file cache_dir mmap name path (contents name) (others c),
            get-fetched (contents name) others c path missing p absent,
            got.0,
            got.1,
            got.2,
          )
      | inr (m, stored) ↦
          let right : m ≡ contents name = h.stored name path m p stored in
          let got = map_file-Got c mm h full missing in
          (
            map_file cache_dir mmap name (contents name) c,
            get-disk (some (contents name)) others c path m missing p stored
                ∙ ap (λ w. done (map_file cache_dir mmap name w c)) right,
            got.0,
            got.1,
            got.2,
          )
    ]
  ]
