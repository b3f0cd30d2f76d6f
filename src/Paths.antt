-- ===== src/Paths.antt =====
-- basename.cc (`BaseName`, `DirName`) and relative_path.cc (`GetRelativePath`).
pub mod Laws
mod Tests
use mathlib.Core.Option
use gitlstreefs.Base.{
  ℕ, suc, ◌+◌, Bool, false, Option, none, some, [], ◌∷◌, ◌==◌, if◌then◌else◌, Bytes, codes, take,
  drop,
}

-- `n.rfind("/")`; `none` is npos.
unfoldable pub rfind_slash : Bytes → Option ℕ
rfind_slash [] = none
rfind_slash (x ∷ xs) = elim (rfind_slash xs) [
  | some k ↦ some (suc k)
  | none ↦ if x == b'/' then some 0 else none
]

unfoldable pub base_name : Bytes → Bytes
base_name n = elim (rfind_slash n) [ none ↦ n | some i ↦ drop (suc i) n ]

unfoldable pub dir_name : Bytes → Bytes
dir_name n = elim (rfind_slash n) [ none ↦ [] | some i ↦ take i n ]

-- `none` is the failed assertion on an empty path.
unfoldable pub get_relative_path : Bytes → Option Bytes
get_relative_path [] = none
get_relative_path (c ∷ []) = some (codes "./")
get_relative_path (c ∷ rest) = some rest

-- `path[0] == '/'`; an empty text has a zero there.
unfoldable pub is_absolute : Bytes → Bool
is_absolute [] = false
is_absolute (c ∷ path) = c == b'/'
