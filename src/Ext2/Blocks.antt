-- ===== src/Ext2/Blocks.antt =====
-- The blocks that `GetFileContent` finds, against the description of the format.
use gitlstreefs.Base.{
  ℕ, zero, suc, ◌≡◌, refl, ap, ◌∙◌, ◌+◌, ◌-◌, ◌*◌, ◌/◌, ◌%◌, ◌^◌, ◌<◌, min, List, [], ◌∷◌, ◌++◌,
  arith, true, false, ltb, leb, ◌==◌, append-nil, if◌then◌else◌, Bool-cases, inl, inr,
}
use native.Mathlib.Nat.{add-zero, zero-add, sub-zero, div-add-mod'}
use gitlstreefs.Base.Outcome.{Outcome, done, ◌>>=◌}
use gitlstreefs.Ext2.{Reader, le32, read_block, size_lo, block}
use gitlstreefs.Ext2.File.{
  FileContent, direct_blocks, indirect_blocks, doubly_indirect_blocks, first_level, second_level,
  get_file_content,
}

-- The number of the block `i` of a file as the format has it: twelve numbers stand in the inode, the
-- next ones in the block that the inode names after them, and the next ones in blocks whose numbers
-- stand in a further block.
abbrev pub block_number : Reader → ℕ → ℕ → Outcome ℕ
block_number r at i =
    let indirect = r.block_size / 4 in
    if ltb i 12
    then block r.image at i
    else if ltb i (12 + indirect)
    then (block r.image at 12 >>= λ n. le32 r.image (n * r.block_size + 4 * (i - 12)))
    else (block r.image at 13 >>= λ n.
        le32 r.image (n * r.block_size + 4 * ((i - 12 - indirect) / indirect)) >>= λ k.
        le32 r.image (k * r.block_size + 4 * ((i - 12 - indirect) % indirect)))

abbrev pub blocks_for : Reader → ℕ → ℕ
blocks_for r size = (size + r.block_size - 1) / r.block_size

-- An inode of a file without holes, whose blocks have the numbers given.
pub record IsFile (r : Reader) (at size : ℕ) (number : ℕ → ℕ) : Type 0 where
  pub sized : size_lo r.image at ≡ done size
  pub entry : (i : ℕ) → i < 15 → (n : ℕ) × (block r.image at i ≡ done n) × (n < 2 ^ 31)
  pub numbered : (i : ℕ) → i < blocks_for r size → block_number r at i ≡ done (number i)
  pub indirect :
      (k : ℕ) (n : ℕ)
      → block r.image at 13 ≡ done n
      → 12 + r.block_size / 4 + k * (r.block_size / 4) < blocks_for r size
      → (m : ℕ) × (le32 r.image (n * r.block_size + 4 * k) ≡ done m) × (m < 2 ^ 31)
  pub present : (i : ℕ) → i < blocks_for r size → (0 < number i) × (number i < 2 ^ 31)
  pub small : blocks_for r size < 12 + r.block_size / 4 + r.block_size / 4 * (r.block_size / 4)

-- The places of `count` blocks from `i` on.
abbrev pub places : (ℕ → ℕ) → ℕ → ℕ → ℕ → List ℕ
places number size zero i = []
places number size (suc count) i = number i * size ∷ places number size count (suc i)

abbrev pub content_of : Reader → ℕ → (ℕ → ℕ) → FileContent
content_of r size number = record {
  content_size = size;
  blocks = places number r.block_size (blocks_for r size) 0;
}

places-append :
    (f : ℕ → ℕ) (b m n i : ℕ) → places f b m i ++ places f b n (i + m) ≡ places f b (m + n) i
places-append f b zero n i = rw (add-zero, zero-add) refl
places-append f b (suc m) n i =
    let next : i + suc m ≡ suc i + m = omega arith in
    let all : suc m + n ≡ suc (m + n) = omega arith in
    rw (next, all) (ap (◌∷◌ (f i * b)) (places-append f b m n (suc i)))

places_split :
    (f : ℕ → ℕ) (b m n i : ℕ)
    → places f b (min m n) i ++ places f b (n - m) (i + m) ≡ places f b n i
places_split f b m n i = elim (Bool-cases (leb n m)) [
  | inl few ↦
      let e : min m n ≡ n = ground arith in
      let z : n - m ≡ 0 = ground arith in rw (e, z) (append-nil (places f b n i))
  | inr many ↦
      let e : min m n ≡ m = ground arith in
      let w : m + (n - m) ≡ n = ground arith in
      rw e (places-append f b m (n - m) i ∙ ap (λ k. places f b k i) w)
]

places-shift :
    (f : ℕ → ℕ) (b k count i : ℕ) → places (λ j. f (k + j)) b count i ≡ places f b count (k + i)
places-shift f b k zero i = refl
places-shift f b k (suc count) i =
    let next : suc (k + i) ≡ k + suc i = omega arith in
    rw next (ap (◌∷◌ (f (k + i) * b)) (places-shift f b k count (suc i)))

pub read_block-done : (b n : ℕ) → n < 2 ^ 31 → read_block b n ≡ done (n * b)
read_block-done b n h = let e : n % 2 ^ 32 ≡ n = omega arith in rw e (ground arith)

module _ (r : Reader) (at : ℕ) (number : ℕ → ℕ) where
  direct_blocks-places :
      (actual count i : ℕ)
      → ((j : ℕ) → j < i + count → (n : ℕ) × (block r.image at j ≡ done n))
      → ((j : ℕ)
          → j < i + count
          → j < actual
          → (block r.image at j ≡ done (number j)) × (0 < number j) × (number j < 2 ^ 31))
      → direct_blocks r at actual count i
        ≡ done (places number r.block_size (min count (actual - i)) i)
  unfolding direct_blocks
  direct_blocks-places actual zero i have known =
      let e : min 0 (actual - i) ≡ 0 = omega arith in rw e refl
  direct_blocks-places actual (suc count) i have known =
      let rest =
        direct_blocks-places actual count (suc i) (λ j l. have j (omega arith))
          (λ j l. known j (omega arith)) in
      elim (Bool-cases (ltb i actual)) [
        | inl inside ↦
            let k = known i (omega arith) (ground arith) in
            let some_number : number i == 0 ≡ false = ground arith in
            let e : min (suc count) (actual - i) ≡ suc (min count (actual - suc i)) =
              ground arith in
            rw (k.0, some_number, inside, read_block-done r.block_size (number i) k.2, rest, e) refl
        | inr outside ↦
            let h = have i (omega arith) in
            let e : min (suc count) (actual - i) ≡ 0 = ground arith in
            let f : min count (actual - suc i) ≡ 0 = ground arith in
            elim (Bool-cases (h.0 == 0)) [
              | inl z ↦ rw (h.1, z, rest, e, f) refl
              | inr z ↦ rw (h.1, z, outside, rest, e, f) refl
            ]
      ]

  indirect_blocks-places :
      (f : ℕ → ℕ) (a count i : ℕ)
      → ((j : ℕ) → j < i + count → (le32 r.image (a + 4 * j) ≡ done (f j)) × (f j < 2 ^ 31))
      → indirect_blocks r a count i ≡ done (places f r.block_size count i)
  unfolding indirect_blocks
  indirect_blocks-places f a zero i known = refl
  indirect_blocks-places f a (suc count) i known =
      let k = known i (omega arith) in
      let rest = indirect_blocks-places f a count (suc i) (λ j l. known j (omega arith)) in
      rw (k.0, read_block-done r.block_size (f i) k.1, rest) refl

  doubly_indirect_blocks-places :
      (f : ℕ → ℕ) (ind a count i : ℕ)
      → ((j : ℕ)
          → j < i + count
          → (k : ℕ) × (le32 r.image (a + 4 * (j / ind)) ≡ done k)
            × (k < 2 ^ 31)
            × (le32 r.image (k * r.block_size + 4 * (j % ind)) ≡ done (f j))
            × (0 < f j)
            × (f j < 2 ^ 31))
      → doubly_indirect_blocks r ind a count i ≡ done (places f r.block_size count i)
  unfolding doubly_indirect_blocks
  doubly_indirect_blocks-places f ind a zero i known = refl
  doubly_indirect_blocks-places f ind a (suc count) i known =
      let h = known i (omega arith) in
      let rest =
        doubly_indirect_blocks-places f ind a count (suc i) (λ j l. known j (omega arith)) in
      let some_number : f i == 0 ≡ false = let q = h.4 in ground arith in
      rw
        (
          h.1,
          read_block-done r.block_size h.0 h.2,
          h.3,
          some_number,
          read_block-done r.block_size (f i) h.5,
          rest,
        )
        refl

module _ (r : Reader) (at size : ℕ) (number : ℕ → ℕ) (file : IsFile r at size number) where
  abbrev actual : ℕ
  actual = blocks_for r size

  abbrev ind : ℕ
  ind = r.block_size / 4

  direct-known :
      (j : ℕ)
      → j < 12
      → j < actual
      → (block r.image at j ≡ done (number j)) × (0 < number j) × (number j < 2 ^ 31)
  direct-known j few l =
      let e = file.numbered j l in
      let p = file.present j l in
      let direct : ltb j 12 ≡ true = ground arith in (rw direct at e, p.0, p.1)

  indirect-known :
      (n j : ℕ)
      → block r.image at 12 ≡ done n
      → j < ind
      → 12 + j < actual
      → (le32 r.image (n * r.block_size + 4 * j) ≡ done (number (12 + j)))
        × (number (12 + j) < 2 ^ 31)
  indirect-known n j h few l =
      let e = file.numbered (12 + j) l in
      let p = file.present (12 + j) l in
      let first : ltb (12 + j) 12 ≡ false = ground arith in
      let second : ltb (12 + j) (12 + ind) ≡ true = ground arith in
      let back : 12 + j - 12 ≡ j = omega arith in (rw (first, second, h, back) at e, p.1)

  doubly_indirect-known :
      (n j : ℕ)
      → block r.image at 13 ≡ done n
      → 12 + ind + j < actual
      → (k : ℕ) × (le32 r.image (n * r.block_size + 4 * (j / ind)) ≡ done k)
        × (k < 2 ^ 31)
        × (le32 r.image (k * r.block_size + 4 * (j % ind)) ≡ done (number (12 + ind + j)))
        × (0 < number (12 + ind + j))
        × (number (12 + ind + j) < 2 ^ 31)
  doubly_indirect-known n j h l =
      let e = file.numbered (12 + ind + j) l in
      let p = file.present (12 + ind + j) l in
      let inside : 12 + ind + j / ind * ind < actual = omega (arith, div-add-mod' j ind) in
      let k = file.indirect (j / ind) n h inside in
      let first : ltb (12 + ind + j) 12 ≡ false = ground arith in
      let second : ltb (12 + ind + j) (12 + ind) ≡ false = ground arith in
      let back : 12 + ind + j - 12 - ind ≡ j = omega arith in
      (k.0, k.1, k.2, rw (first, second, h, back, k.1) at e, p.0, p.1)

  first_level-places :
      first_level r at ind actual ≡ done (places number r.block_size (min ind (actual - 12)) 12)
  unfolding first_level
  first_level-places = elim (Bool-cases (leb 12 actual)) [
    | inl more ↦
        let h = file.entry 12 (omega arith) in
        let known : (j : ℕ)
            → j < 0 + min ind (actual - 12)
            → (le32 r.image (h.0 * r.block_size + 4 * j) ≡ done (number (12 + j)))
              × (number (12 + j) < 2 ^ 31) =
          λ j l. indirect-known h.0 j h.1 (omega arith) (omega arith) in
        let found =
          indirect_blocks-places r at number (λ j. number (12 + j)) (h.0 * r.block_size)
            (min ind (actual - 12)) 0 known in
        rw (more, h.1, read_block-done r.block_size h.0 h.2, found)
          (ap (λ t. done t) (places-shift number r.block_size 12 (min ind (actual - 12)) 0))
    | inr few ↦ let e : min ind (actual - 12) ≡ 0 = ground arith in rw (few, e) refl
  ]

  second_level-places :
      second_level r at ind actual
      ≡ done (places number r.block_size (actual - 12 - ind) (12 + ind))
  unfolding second_level
  second_level-places = elim (Bool-cases (leb (12 + ind) actual)) [
    | inl more ↦
        let h = file.entry 13 (omega arith) in
        let few : min (ind * ind) (actual - 12 - ind) ≡ actual - 12 - ind =
          omega (arith, file.small) in
        let found =
          doubly_indirect_blocks-places r at number (λ j. number (12 + ind + j)) ind
            (h.0 * r.block_size) (actual - 12 - ind) 0
            (λ j l. doubly_indirect-known h.0 j h.1 (omega arith)) in
        rw (more, h.1, read_block-done r.block_size h.0 h.2, few, found)
          (ap (λ t. done t)
            (places-shift number r.block_size (12 + ind) (actual - 12 - ind) 0
              ∙ ap (places number r.block_size (actual - 12 - ind)) (add-zero (12 + ind))))
    | inr few ↦ let e : actual - 12 - ind ≡ 0 = ground arith in rw (few, e) refl
  ]

  joined :
      places number r.block_size (min 12 (actual - 0)) 0
        ++ (places number r.block_size (min ind (actual - 12)) 12
            ++ places number r.block_size (actual - 12 - ind) (12 + ind))
      ≡ places number r.block_size actual 0
  joined =
      ap (λ t. places number r.block_size (min 12 (actual - 0)) 0 ++ t)
        (places_split number r.block_size ind (actual - 12) 12)
      ∙ rw (sub-zero actual) (places_split number r.block_size 12 actual 0)

  -- Of an inode of a file that has no holes and needs no triply indirect blocks, and whose blocks,
  -- numbered as the format has it, are named by numbers below 2 ^ 31, `GetFileContent` returns the
  -- size and all the blocks, each once and in their order.
  pub get_file_content-places : get_file_content r at ≡ done (content_of r size number)
  unfolding get_file_content
  get_file_content-places =
      let direct =
        direct_blocks-places r at number actual 12 0
          (λ j l. let h = file.entry j (omega arith) in (h.0, h.1))
          (λ j l k. direct-known j (omega arith) k) in
      let fits : leb (12 + ind + ind * ind) actual ≡ false = let s = file.small in ground arith in
      rw (file.sized, direct, first_level-places, second_level-places, fits, joined) refl
