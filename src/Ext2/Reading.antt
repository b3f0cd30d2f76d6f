-- ===== src/Ext2/Reading.antt =====
-- What a read of an `Ext2File` returns.
use gitlstreefs.Base.{
  substr, ℕ, zero, suc, ◌≡◌, refl, sym, ap, ◌∙◌, ◌+◌, ◌-◌, ◌*◌, ◌/◌, ◌%◌, ◌≤◌, ◌<◌, Option, none,
  some, List, [], ◌∷◌, All, arith, Bytes, take, drop, length, true, false, ltb, if◌then◌else◌,
  Bool-cases, inl, inr, ◌⊎◌, length-append, length-take,
}
use native.Mathlib.Nat.{div-add-mod', mod-lt, le_trans}
use gitlstreefs.Base.Outcome.{done}
use gitlstreefs.Container.{update}
use gitlstreefs.Fuse.{ok}
use gitlstreefs.Fuse.Window.{window}
use gitlstreefs.Ext2.{Reader}
use gitlstreefs.Ext2.File.{FileContent, World, cached_file_content, get_file_content, copy, read}
use gitlstreefs.Ext2.Copying.{InImage, text_of, take-take, length-block, copy-aligned}
use gitlstreefs.Ext2.Blocks.{IsFile, blocks_for, places, content_of, get_file_content-places}

All-places {ℓ} :
    (P : ℕ → Type ℓ) (f : ℕ → ℕ) (b count i : ℕ)
    → ((j : ℕ) → j < i + count → P (f j * b))
    → All P (places f b count i)
All-places P f b zero i h = tt
All-places P f b (suc count) i h =
    (h i (omega arith), All-places P f b count (suc i) (λ j l. h j (omega arith)))

length-places : (f : ℕ → ℕ) (b count i : ℕ) → length (places f b count i) ≡ count
length-places f b zero i = refl
length-places f b (suc count) i = ap suc (length-places f b count (suc i))

length-text_of :
    (r : Reader) (ps : List ℕ)
    → All (InImage r) ps
    → length (text_of r ps) ≡ length ps * r.block_size
length-text_of r [] h = omega arith
length-text_of r (p ∷ ps) h =
    length-append (substr r.image p r.block_size) (text_of r ps)
    ∙ omega (arith, length-block r p h.0, length-text_of r ps h.1)

take-drop-take :
    (n m size : ℕ) (xs : Bytes) → m + n ≤ size → take n (drop m (take size xs)) ≡ take n (drop m xs)
take-drop-take n zero size xs h = take-take n size xs (omega arith)
take-drop-take n (suc m) zero xs h = absurd (omega arith)
take-drop-take n (suc m) (suc size) [] h = refl
take-drop-take n (suc m) (suc size) (x ∷ xs) h = take-drop-take n m size xs (omega arith)

cached :
    (w : World) (at : ℕ) (c : Option FileContent) (content : FileContent)
    → w.inode_cache at ≡ some c
    → (c ≡ none) ⊎ (c ≡ some content)
    → get_file_content w.reader at ≡ done content
    → (w' : World) × (cached_file_content at w ≡ done (content, w'))
      × (w'.inode_cache at ≡ some (some content))
      × (w'.reader ≡ w.reader)
unfolding cached_file_content
cached w at none content e right get = (
  record w { inode_cache = update w.inode_cache at (some (some content)) },
  ground (arith, get),
  ground arith,
  refl,
)
cached w at (some d) content e right get = (w, ground (arith, right), ground (arith, right), refl)

-- As many bytes as are left of the size.
abbrev fit : ℕ → ℕ → ℕ → ℕ
fit size n offset = if ltb size (offset + n) then size - offset else n

window-take :
    (size n offset : ℕ) (text : Bytes)
    → size ≤ length text
    → offset < size
    → window (take size text) n offset ≡ take (fit size n offset) (drop offset text)
unfolding window
window-take size n offset text le l =
    let len : length (take size text) ≡ size = omega (arith, length-take size text) in
    let within : offset + fit size n offset ≤ size = ground arith in
    let some_left : ltb offset size ≡ true = ground arith in
    rw (len, some_left) (take-drop-take (fit size n offset) offset size text within)

window-take_end :
    (size n offset : ℕ) (text : Bytes)
    → size ≤ length text
    → size ≤ offset
    → window (take size text) n offset ≡ []
unfolding window
window-take_end size n offset text le l =
    let len : length (take size text) ≡ size = omega (arith, length-take size text) in
    let none_left : ltb offset size ≡ false = ground arith in rw (len, none_left) refl

le-ceil : (n b : ℕ) → 0 < b → n ≤ (n + b - 1) / b * b
le-ceil n b h = omega (arith, div-add-mod' (n + b - 1) b, mod-lt (n + b - 1) h)

module _ (w : World) (at size : ℕ) (number : ℕ → ℕ) (file : IsFile w.reader at size number)
    (inside : (i : ℕ)
      → i < blocks_for w.reader size
      → InImage w.reader (number i * w.reader.block_size))
    (pos : 0 < w.reader.block_size) where
  abbrev ps : List ℕ
  ps = places number w.reader.block_size (blocks_for w.reader size) 0

  ps-InImage : All (InImage w.reader) ps
  ps-InImage =
      All-places (InImage w.reader) number w.reader.block_size (blocks_for w.reader size) 0
        (λ j l. inside j (omega arith))

  enough : size ≤ length ps * w.reader.block_size
  enough =
      rw (length-places number w.reader.block_size (blocks_for w.reader size) 0)
        (le-ceil size w.reader.block_size pos)

  enough_text : size ≤ length (text_of w.reader ps)
  enough_text = rw (length-text_of w.reader ps ps-InImage) enough

  copy-window :
      (n offset : ℕ)
      → offset % w.reader.block_size ≡ 0
      → offset < size
      → copy w.reader (content_of w.reader size number) (fit size n offset) offset
        ≡ done (window (take size (text_of w.reader ps)) n offset)
  copy-window n offset aligned l =
      let within : offset + fit size n offset ≤ size = ground arith in
      copy-aligned w.reader (content_of w.reader size number) (fit size n offset) offset pos
        ps-InImage aligned (le_trans within enough)
      ∙ ap (λ t. done t) (sym (window-take size n offset (text_of w.reader ps) enough_text l))

  -- Of a file without holes that needs no triply indirect blocks and whose blocks lie in the image, a
  -- read at a multiple of the block size returns the part of the file from the offset on, at most
  -- `size` bytes, where the file is the contents of its blocks, numbered as the format has it, up to
  -- its size; the blocks that were found are kept.
  pub read-aligned :
      (n offset : ℕ) (c : Option FileContent)
      → w.inode_cache at ≡ some c
      → (c ≡ none) ⊎ (c ≡ some (content_of w.reader size number))
      → offset % w.reader.block_size ≡ 0
      → (w' : World) × (read at w n offset
          ≡ done (ok (window (take size (text_of w.reader ps)) n offset), at, w'))
        × (w'.inode_cache at ≡ some (some (content_of w.reader size number)))
        × (w'.reader ≡ w.reader)
  unfolding read
  read-aligned n offset c e right aligned =
      let (w', found, kept, same) =
        cached w at c (content_of w.reader size number) e right
          (get_file_content-places w.reader at size number file) in
      (
        w',
        elim (Bool-cases (ltb offset size)) [
          | inl some_left ↦
              rw (found, some_left, same, copy-window n offset aligned (ground arith)) refl
          | inr none_left ↦
              rw
                (
                  found,
                  none_left,
                  window-take_end size n offset (text_of w.reader ps) enough_text (ground arith),
                )
                refl
        ],
        kept,
        same,
      )
