-- ===== src/FileCache/Release.antt =====
-- What `Cache::release` does with a file that `Cache::get` returned.
use gitlstreefs.Base.{
  ◌≡◌, sym, ap, ◌∙◌, inl, inr, Option, Option-cases, some, false, arith, Bytes, lookup, insert,
  emplace,
}
use gitlstreefs.Base.Outcome.{done}
use gitlstreefs.FileCache.{Cache, cache_file_path, map_file, store_file, get, release}

done-injective : {A : Type 0} (a b : A) → done a ≡ done b → a ≡ b
done-injective a b e = cc e

module _ (cache_dir : Bytes) (mmap : Bytes → Option Bytes) (name : Bytes) where
  map_file-mapped :
      (contents m : Bytes) (c c' : Cache)
      → map_file cache_dir mmap name contents c ≡ (some m, c')
      → lookup name c'.mapped_files ≡ some m
  unfolding map_file
  map_file-mapped contents m c c' e = elim (Option-cases (mmap contents)) [
    | inl refused ↦ cc (rw (refused, map_file) at e)
    | inr (w, maps) ↦
        let run = rw (maps, map_file) at e in
        let kept : emplace name w c.mapped_files ≡ c'.mapped_files =
          ap (λ r. r.1.mapped_files) run in
        ap (lookup name) (sym kept) ∙ ap (λ r. r.0) run
  ]

  store_file-mapped :
      (path contents m : Bytes) (c c' : Cache)
      → store_file cache_dir mmap name path contents c ≡ (some m, c')
      → lookup name c'.mapped_files ≡ some m
  unfolding store_file
  store_file-mapped path contents m c c' e = elim (Option-cases (lookup name c.mapped_files)) [
    | inr (w, there) ↦
        let run = rw (there, store_file) at e in
        ap (λ r. lookup name r.1.mapped_files) (sym run) ∙ there ∙ ap (λ r. r.0) run
    | inl missing ↦
        map_file-mapped contents m (record c { disk = insert path contents c.disk }) c'
          (rw (missing, store_file) at e)
  ]

  get-mapped :
      (fetched : Option Bytes) (others : Cache → Cache) (path m : Bytes) (c c' : Cache)
      → cache_file_path cache_dir name ≡ done path
      → get cache_dir mmap fetched others name c ≡ done (some m, c')
      → lookup name c'.mapped_files ≡ some m
  unfolding get
  get-mapped fetched others path m c c' p e = elim (Option-cases (lookup name c.mapped_files)) [
    | inr (w, there) ↦
        let run = done-injective (some w, c) (some m, c') (rw (there, get) at e) in
        ap (λ r. lookup name r.1.mapped_files) (sym run) ∙ there ∙ ap (λ r. r.0) run
    | inl missing ↦ elim (Option-cases (lookup path c.disk)) [
      | inr (w, stored) ↦ map_file-mapped w m c c' (cc (rw (missing, get, p, stored) at e))
      | inl absent ↦ elim (Option-cases fetched) [
        | inl failed ↦ cc (rw (missing, get, p, absent, failed) at e)
        | inr (w, came) ↦
            store_file-mapped path w m (others c) c' (cc (rw (missing, get, p, absent, came) at e))
      ]
    ]
  ]

  -- A file that `get` returned, whether it was mapped, on disk or fetched, is never released: `release`
  -- of its name returns false, whatever pointer it is given, and all that is mapped stays so, the file
  -- among it.
  pub release-get :
      (fetched item : Option Bytes) (others : Cache → Cache) (path m : Bytes) (c c' : Cache)
      → cache_file_path cache_dir name ≡ done path
      → get cache_dir mmap fetched others name c ≡ done (some m, c')
      → (release name item c' ≡ done (false, c')) × (lookup name c'.mapped_files ≡ some m)
  unfolding release
  release-get fetched item others path m c c' p e =
      let there = get-mapped fetched others path m c c' p e in (ground (arith, there), there)
