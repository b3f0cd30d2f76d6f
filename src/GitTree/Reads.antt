-- ===== src/GitTree/Reads.antt =====
-- What the reads of a file return.
use gitlstreefs.Base.{
  ℕ, zero, suc, ◌+◌, ◌-◌, ◌≤◌, ◌<◌, ◌≡◌, refl, sym, ap, ◌∙◌, ◌⊎◌, inl, inr, Bool-cases, Option,
  none, some, [], ◌∷◌, ◌++◌, arith, ltb, Bytes, take, drop, length, length-take, length-drop,
  take_all, drop_all, drop-drop,
}
use gitlstreefs.Base.Outcome.{Outcome, done}
use gitlstreefs.Fuse.Window.{window_lem}
use gitlstreefs.GitTree.{
  FileElement, maybe_cat_file_locked, memory_of, put_before, read, read_blocks,
}

-- The file's contents are `m`: in its memory, or in the cache.
abbrev pub IsFile : (Bytes → Option Bytes) → FileElement → Bytes → Type 0
IsFile get f m = (f.memory ≡ some m) ⊎ (f.memory ≡ none) × (get f.sha1 ≡ some m)

take-drop_taken : (n : ℕ) (d : Bytes) → take n d ++ drop (length (take n d)) d ≡ d
take-drop_taken zero d = refl
take-drop_taken (suc n) [] = refl
take-drop_taken (suc n) (c ∷ d) = ap (◌∷◌ c) (take-drop_taken n d)

take-put_before :
    (d : Bytes) (block : ℕ) (rest : Bytes)
    → 0 < block
    → rest ≡ drop (length (take block d)) d
    → put_before (take block d) (done rest) ≡ done d
unfolding put_before
take-put_before d zero rest h e = absurd (omega arith)
take-put_before [] (suc block) rest h e = refl
take-put_before (c ∷ d) (suc block) rest h e =
    ap (λ w. done (c ∷ (take block d ++ w))) e ∙ ap (λ w. done (c ∷ w)) (take-drop_taken block d)

put_before-nothing : (block : ℕ) (rest : Outcome Bytes) → put_before (take block []) rest ≡ done []
unfolding put_before
put_before-nothing block rest =
    ap (λ w. put_before w rest) (take_all {A = ℕ} block [] (omega arith))

module _ (get : Bytes → Option Bytes) where
  cached : (f : FileElement) (m : Bytes) → f.memory ≡ some m → maybe_cat_file_locked get f ≡ done f
  unfolding maybe_cat_file_locked
  cached f m e = rw e

  fetched :
      (f : FileElement) (m : Bytes)
      → f.memory ≡ none
      → get f.sha1 ≡ some m
      → maybe_cat_file_locked get f ≡ done (record f { memory = some m })
  unfolding maybe_cat_file_locked
  fetched f m e h = ground (arith, e, h)

  -- Where a file's contents are in its memory or in the cache, as after `Release`, `Read` returns
  -- the contents from the offset on, at most `size` bytes, and keeps them in memory.
  pub read_lem :
      (f : FileElement) (m : Bytes) (size offset : ℕ)
      → IsFile get f m
      → (g : FileElement) × (read get f size offset ≡ done (take size (drop offset m), g))
        × (g.memory ≡ some m)
  unfolding read memory_of
  read_lem f m size offset (inl e) = (f, rw (cached f m e, e, window_lem m size offset), e)
  read_lem f m size offset (inr h) =
      (record f { memory = some m }, rw (fetched f m h.0 h.1, window_lem m size offset), refl)

  read_blocks-step :
      (fuel : ℕ) (f g : FileElement) (block offset : ℕ) (text : Bytes)
      → read get f block offset ≡ done (text, g)
      → read_blocks get (suc fuel) f block offset
        ≡ put_before text (read_blocks get fuel g block (offset + length text))
  unfolding read_blocks
  read_blocks-step fuel f g block offset text e = rw e

  read_blocks-rest :
      (fuel : ℕ) (f : FileElement) (m : Bytes) (block offset : ℕ)
      → IsFile get f m
      → 0 < block
      → length m - offset < fuel
      → read_blocks get fuel f block offset ≡ done (drop offset m)
  read_blocks-rest zero f m block offset h k enough = absurd (omega arith)
  read_blocks-rest (suc fuel) f m block offset h k enough =
      let (g, run, memory) = read_lem f m block offset h in
      let d = drop offset m in
      let text = take block d in
      let next = read_blocks-step fuel f g block offset text run in
      elim (Bool-cases (ltb offset (length m))) [
        | inl within ↦
            let lt : offset < length m = ground arith in
            let some_text : 0 < length text =
              omega (arith, length-take block d, length-drop offset m) in
            let ih =
              read_blocks-rest fuel g m block (offset + length text) (inl memory) k (omega arith) in
            next
            ∙ ap (put_before text) ih
            ∙ take-put_before d block (drop (offset + length text) m) k
                (sym (drop-drop offset (length text) m))
        | inr beyond ↦
            let le : length m ≤ offset = ground arith in
            let empty : d ≡ [] = drop_all offset m le in
            next
            ∙ ap
                (λ w.
                  put_before (take block w) (read_blocks get fuel g block (offset + length text)))
                empty
            ∙ put_before-nothing block (read_blocks get fuel g block (offset + length text))
            ∙ ap done (sym empty)
      ]

  -- Where a file's contents are in its memory or in the cache, a caller that reads the file in
  -- blocks of any size above 0 until a read returns nothing gets exactly the contents, with fuel
  -- above their length.
  pub read_blocks-all :
      (f : FileElement) (m : Bytes) (block fuel : ℕ)
      → IsFile get f m
      → 0 < block
      → length m < fuel
      → read_blocks get fuel f block 0 ≡ done m
  read_blocks-all f m block fuel h k enough = read_blocks-rest fuel f m block 0 h k (omega arith)
