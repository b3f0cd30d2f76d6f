-- ===== src/GitTree.antt =====
-- gitlstree.h and gitlstree.cc: `FileElement`, the files of a tree that git lists. The cache with the
-- process behind it is a parameter. Offsets are not negative, and `offset + size` does not wrap.
pub mod Reads
pub mod Load
pub mod Lines
mod Tests
use gitlstreefs.Base.{
  Bool, ℕ, zero, suc, ◌+◌, ◌-◌, Option, none, some, [], ◌∷◌, ◌++◌, ltb, if◌then◌else◌, Bytes, take,
  drop, length,
}
use gitlstreefs.Fuse.Window.{window, link_text}
use gitlstreefs.Base.Outcome.{Outcome, done, undefined, ◌>>=◌}

-- `memory` is `memory_`, with `none` for the null pointer; `size_` is whether it is
-- negative, and its magnitude.
pub record FileElement : Type 0 where
  pub attribute : ℕ
  pub sha1 : Bytes
  pub size : Bool × ℕ
  pub memory : Option Bytes

-- `release`: the memory goes, the cache keeps it.
abbrev pub release : FileElement → FileElement
release f = record f { memory = none }

-- Nothing was read: the end of the file.
unfoldable pub put_before : Bytes → Outcome Bytes → Outcome Bytes
put_before [] rest = done []
put_before (c ∷ cs) rest = rest >>= λ more. done ((c ∷ cs) ++ more)

module _ (get : Bytes → Option Bytes) where
  -- `maybe_cat_file_locked`, where `get` is the cache with its fetch function; `undefined` is abort.
  unfoldable pub maybe_cat_file_locked : FileElement → Outcome FileElement
  maybe_cat_file_locked f = elim f.memory [
    | some memory ↦ done f
    | none ↦ elim (get f.sha1) [
      | none ↦ undefined
      | some memory ↦ done (record f { memory = some memory })
    ]
  ]

  unfoldable pub open_file : FileElement → Outcome FileElement
  open_file f = maybe_cat_file_locked f

  -- A failed assertion if there is still no memory.
  unfoldable pub memory_of : FileElement → Outcome Bytes
  memory_of f = elim f.memory [ none ↦ undefined | some memory ↦ done memory ]

  unfoldable pub read : FileElement → ℕ → ℕ → Outcome (Bytes × FileElement)
  unfolding maybe_cat_file_locked memory_of window
  read f size offset = do
    g ← maybe_cat_file_locked f
    memory ← memory_of g
    done (window memory size offset, g)

  unfoldable pub readlink : FileElement → ℕ → Outcome (Bytes × FileElement)
  unfolding maybe_cat_file_locked memory_of link_text
  readlink f size = do
    g ← maybe_cat_file_locked f
    memory ← memory_of g
    done (link_text memory size, g)

  -- A caller that reads a file in blocks, as the kernel does, until nothing comes back. One unit of
  -- fuel for each read.
  unfoldable pub read_blocks : ℕ → FileElement → ℕ → ℕ → Outcome Bytes
  read_blocks zero f block offset = undefined
  read_blocks (suc fuel) f block offset = do
    (text, g) ← read f block offset
    let rest = read_blocks fuel g block (offset + length text)
    put_before text rest
