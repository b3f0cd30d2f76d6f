-- ===== src/Ext2/Copying.antt =====
-- What `FileContent::copy` writes.
use gitlstreefs.Base.{
  ℕ, zero, suc, ◌≡◌, refl, sym, ap, ◌∙◌, ◌+◌, ◌-◌, ◌*◌, ◌/◌, ◌%◌, ◌^◌, ◌≤◌, ◌<◌, List, [], ◌∷◌,
  ◌++◌, All, arith, Bytes, take, drop, length, false, ltb, ◌==◌, length-take, length-drop, substr,
  Bool-cases, inl, inr, drop_all, drop-append_length, drop-drop,
}
use native.Mathlib.Nat.{zero-mul, div-add-mod, mul_comm, mul-sub}
use gitlstreefs.Base.Outcome.{done}
use gitlstreefs.Ext2.{Reader, bytes_at}
use gitlstreefs.Ext2.File.{FileContent, copy_blocks, copy_first, copy, to_copy}

-- The block at a place lies in the image.
abbrev pub InImage : Reader → ℕ → Type 0
InImage r p = p + r.block_size ≤ length r.image

-- The contents of the blocks, one after the other.
abbrev pub text_of : Reader → List ℕ → Bytes
text_of r [] = []
text_of r (p ∷ ps) = substr r.image p r.block_size ++ text_of r ps

pub length-block :
    (r : Reader) (p : ℕ) → InImage r p → length (substr r.image p r.block_size) ≡ r.block_size
length-block r p h = omega (arith, length-take r.block_size (drop p r.image), length-drop p r.image)

take-append_ge :
    (n : ℕ) (xs ys : Bytes) → length xs ≤ n → take n (xs ++ ys) ≡ xs ++ take (n - length xs) ys
take-append_ge n [] ys h = ap (λ k. take k ys) (omega arith)
take-append_ge zero (x ∷ xs) ys h = absurd (omega arith)
take-append_ge (suc n) (x ∷ xs) ys h =
    ap (◌∷◌ x) (take-append_ge n xs ys (omega arith) ∙ ap (λ k. xs ++ take k ys) (omega arith))

take-append_le : (n : ℕ) (xs ys : Bytes) → n ≤ length xs → take n (xs ++ ys) ≡ take n xs
take-append_le zero xs ys h = refl
take-append_le (suc n) [] ys h = absurd (omega arith)
take-append_le (suc n) (x ∷ xs) ys h = ap (◌∷◌ x) (take-append_le n xs ys (omega arith))

pub take-take : (m n : ℕ) (xs : Bytes) → m ≤ n → take m (take n xs) ≡ take m xs
take-take zero n xs h = refl
take-take (suc m) zero xs h = absurd (omega arith)
take-take (suc m) (suc n) [] h = refl
take-take (suc m) (suc n) (x ∷ xs) h = ap (◌∷◌ x) (take-take m n xs (omega arith))

bytes_at-done :
    (image : Bytes) (p n : ℕ) → p + n ≤ length image → bytes_at image p n ≡ done (substr image p n)
unfolding bytes_at
bytes_at-done image p n h = ground arith

copy_blocks-text :
    (r : Reader) (ps : List ℕ) (n : ℕ)
    → All (InImage r) ps
    → n ≤ length ps * r.block_size
    → copy_blocks r ps n ≡ done (take n (text_of r ps))
unfolding copy_blocks
copy_blocks-text r [] zero h fits = refl
copy_blocks-text r [] (suc n) h fits = absurd (omega arith)
copy_blocks-text r (p ∷ ps) n h fits =
    let len = length-block r p h.0 in
    elim (Bool-cases (ltb r.block_size n)) [
      | inl more ↦
          let whole = bytes_at-done r.image p r.block_size h.0 in
          let after = copy_blocks-text r ps (n - r.block_size) h.1 (omega arith) in
          rw (more, whole, after)
            (ap (λ t. done t)
              (ap (λ k. substr r.image p r.block_size ++ take (n - k) (text_of r ps)) (sym len)
                ∙ sym (
                    take-append_ge n (substr r.image p r.block_size) (text_of r ps)
                      (ground (arith, len, more)))))
      | inr last ↦ elim (Bool-cases (n == 0)) [
        | inl none_left ↦ let z : n ≡ 0 = ground arith in rw (last, none_left, z) refl
        | inr some_left ↦
            let part = bytes_at-done r.image p n (ground (arith, h.0, last)) in
            rw (last, some_left, part)
              (ap (λ t. done t)
                (sym (
                  take-append_le n (substr r.image p r.block_size) (text_of r ps)
                    (ground (arith, len, last))
                  ∙ take-take n r.block_size (drop p r.image) (ground (arith, last)))))
      ]
    ]

drop-text_of :
    (r : Reader) (k : ℕ) (ps : List ℕ)
    → All (InImage r) ps
    → drop (k * r.block_size) (text_of r ps) ≡ text_of r (drop k ps)
drop-text_of r zero ps h = rw zero-mul refl
drop-text_of r (suc k) [] h = drop_all (suc k * r.block_size) [] (omega arith)
drop-text_of r (suc k) (p ∷ ps) h =
    let len = length-block r p h.0 in
    let whole = substr r.image p r.block_size in
    ap (λ m. drop m (whole ++ text_of r ps)) (omega (arith, len))
    ∙ sym (drop-drop (length whole) (k * r.block_size) (whole ++ text_of r ps))
    ∙ ap (drop (k * r.block_size)) (drop-append_length whole (text_of r ps))
    ∙ drop-text_of r k ps h.1

All-drop {ℓ κ} : {A : Type ℓ} (P : A → Type κ) (k : ℕ) (xs : List A) → All P xs → All P (drop k xs)
All-drop P zero xs h = h
All-drop P (suc k) [] h = h
All-drop P (suc k) (x ∷ xs) h = All-drop P k xs h.1

fits_left :
    (j k b offset n left : ℕ) → left ≡ j - k → k * b ≡ offset → offset + n ≤ j * b → n ≤ left * b
fits_left j k b offset n left e f fits =
    rw (e, mul_comm (j - k) b, mul-sub b j k) (omega (arith, f, fits))

-- Where all blocks of the content lie in the image and the part lies in them, and its offset is a
-- multiple of the block size, `copy` writes the bytes of this part of the blocks' contents.
pub copy-aligned :
    (r : Reader) (content : FileContent) (n offset : ℕ)
    → 0 < r.block_size
    → All (InImage r) content.blocks
    → offset % r.block_size ≡ 0
    → offset + n ≤ length content.blocks * r.block_size
    → copy r content n offset ≡ done (take n (drop offset (text_of r content.blocks)))
unfolding copy
copy-aligned r content n offset pos h aligned fits =
    let k = offset / r.block_size in
    let e : k * r.block_size ≡ offset = omega (arith, div-add-mod offset r.block_size) in
    let few = length-drop k content.blocks in
    rw aligned (
      copy_blocks-text r (drop k content.blocks) n (All-drop (InImage r) k content.blocks h) (
        fits_left (length content.blocks) k r.block_size offset n (length (drop k content.blocks))
          few e fits)
      ∙ ap (λ t. done (take n t))
          (sym (drop-text_of r k content.blocks h) ∙ ap (λ m. drop m (text_of r content.blocks)) e))

to_copy-sub : (n inside : ℕ) → inside ≤ n → n < 2 ^ 64 → to_copy n inside ≡ n - inside
unfolding to_copy
to_copy-sub n inside le small = omega arith

copy_first_inside :
    (r : Reader) (n inside p q : ℕ) (ps : List ℕ)
    → InImage r p
    → InImage r q
    → 0 < inside
    → inside ≤ n
    → inside + n ≤ r.block_size
    → r.block_size < 2 ^ 64
    → copy_first r (p ∷ q ∷ ps) n inside
      ≡ done (substr r.image (p + inside) (n - inside) ++ substr r.image q inside)
unfolding copy_first copy_blocks
copy_first_inside r n inside p q ps hp hq pos le fits small =
    let part = to_copy-sub n inside le (omega arith) in
    let first = bytes_at-done r.image (p + inside) (n - inside) (omega arith) in
    let next = bytes_at-done r.image q inside (omega arith) in
    let left : n - (n - inside) ≡ inside = omega arith in
    let less : ltb r.block_size inside ≡ false = ground arith in
    let more : inside == 0 ≡ false = ground arith in rw (part, first, left, less, more, next) refl

-- Where the part lies in one block but not at its start, `copy` writes too little of this block and
-- goes on with the start of the next one: of `n` bytes at `inside` in the block, where `inside` is
-- not 0 and at most `n`, the last `inside` bytes come from the start of the next block.
pub copy_inside :
    (r : Reader) (content : FileContent) (n offset p q : ℕ) (ps : List ℕ)
    → drop (offset / r.block_size) content.blocks ≡ p ∷ q ∷ ps
    → InImage r p
    → InImage r q
    → 0 < offset % r.block_size
    → offset % r.block_size ≤ n
    → offset % r.block_size + n ≤ r.block_size
    → r.block_size < 2 ^ 64
    → copy r content n offset
      ≡ done (
          substr r.image (p + offset % r.block_size) (n - offset % r.block_size)
          ++ substr r.image q (offset % r.block_size))
unfolding copy
copy_inside r content n offset p q ps left hp hq pos le fits small =
    let inside = offset % r.block_size in
    let more : inside == 0 ≡ false = ground arith in
    rw (more, left) (copy_first_inside r n inside p q ps hp hq pos le fits small)
