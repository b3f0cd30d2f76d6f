-- ===== src/Fuse/Window.antt =====
-- The part of a file that a read copies, and the text of a link.
use gitlstreefs.Base.{
  ◌≡◌, ◌≤◌, ◌<◌, sym, ap, ◌∙◌, inl, inr, Bool-cases, arith, length-drop, take_all, drop_all, ℕ, ◌+◌,
  ◌-◌, [], ◌∷◌, ◌++◌, ltb, if◌then◌else◌, Bytes, take, drop, length,
}

-- What is copied to the buffer; its length is what `Read` returns.
unfoldable pub window : Bytes → ℕ → ℕ → Bytes
window memory size offset =
    let fit = if ltb (length memory) (offset + size) then length memory - offset else size in
    if ltb offset (length memory) then take fit (drop offset memory) else []

-- `Readlink`: the text that is copied to a buffer of `size` bytes, and whether a zero stands behind
-- it.
unfoldable pub link_text : Bytes → ℕ → Bytes
link_text memory size = if ltb (length memory) size then memory ++ 0 ∷ [] else take size memory

-- The window without its cases.
pub window_lem : (m : Bytes) (size offset : ℕ) → window m size offset ≡ take size (drop offset m)
unfolding window
window_lem m size offset = elim (Bool-cases (ltb offset (length m))) [
  | inr beyond ↦
      let le : length m ≤ offset = ground arith in
      rw beyond (sym (ap (take size) (drop_all offset m le) ∙ take_all size [] (omega arith)))
  | inl within ↦ elim (Bool-cases (ltb (length m) (offset + size))) [
    | inl short ↦
        let lt : length m < offset + size = ground arith in
        rw (within, short)
          (take_all (length m - offset) (drop offset m) (omega (arith, length-drop offset m))
            ∙ sym (take_all size (drop offset m) (omega (arith, length-drop offset m))))
    | inr full ↦ rw (within, full)
  ]
]
