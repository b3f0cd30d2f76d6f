-- ===== src/Paths/Laws.antt =====
-- The two halves of a path, and the relative path (basename.cc, relative_path.cc).
use gitlstreefs.Base.{
  ℕ, suc, ◌+◌, ◌<◌, ◌≡◌, ◌≢◌, inl, inr, refl, none, some, [], ◌∷◌, ◌++◌, arith, if◌then◌else◌,
  Bytes, Lacks, bytes_eq, Option-cases, take, drop, length, take-append_length,
  drop-append_suc-length, length-take,
}
use gitlstreefs.Paths.{rfind_slash, base_name, dir_name, get_relative_path}

-- A text has no slash, or its last slash stands between two halves, the second without one.
pub rfind_slash-none : (n : Bytes) → rfind_slash n ≡ none → Lacks b'/' n
unfolding rfind_slash
rfind_slash-none [] h = refl
rfind_slash-none (x ∷ xs) h = ground (arith, rfind_slash-none xs)

pub rfind_slash-Lacks : (n : Bytes) → Lacks b'/' n → rfind_slash n ≡ none
unfolding rfind_slash
rfind_slash-Lacks [] h = refl
rfind_slash-Lacks (x ∷ xs) h = ground (arith, rfind_slash-Lacks xs)

pub rfind_slash-append :
    (d b : Bytes) → Lacks b'/' b → rfind_slash (d ++ b'/' ∷ b) ≡ some (length d)
unfolding rfind_slash
rfind_slash-append [] b h = ground (arith, rfind_slash-Lacks b h)
rfind_slash-append (x ∷ d) b h = rw (rfind_slash-append d b h)

-- A last slash splits the text, and no slash stands behind it.
pub rfind_slash-some :
    (n : Bytes) (i : ℕ)
    → rfind_slash n ≡ some i
    → (take i n ++ b'/' ∷ drop (suc i) n ≡ n) × Lacks b'/' (drop (i + 1) n) × (i < length n)
unfolding rfind_slash
rfind_slash-some [] i h = cc
rfind_slash-some (x ∷ xs) i h = elim (Option-cases (rfind_slash xs)) [
  | inl e ↦ ground (arith, rfind_slash-none xs e)
  | inr (k, e) ↦ ground (arith, rfind_slash-some xs k e)
]

-- Of a directory, a slash and a name without slashes, `DirName` is the directory and `BaseName` the
-- name.
pub dir_name-base_name_append :
    (d b : Bytes) → Lacks b'/' b → (dir_name (d ++ b'/' ∷ b) ≡ d) × (base_name (d ++ b'/' ∷ b) ≡ b)
unfolding dir_name base_name
dir_name-base_name_append d b h = (
  rw (rfind_slash-append d b h, dir_name) (take-append_length d (b'/' ∷ b)),
  ground (arith, rfind_slash-append d b h, drop-append_suc-length d b'/' b),
)

-- A text that has a slash is its `DirName`, a slash and its `BaseName`.
pub dir_name_slash_base_name : (n : Bytes) → ¬ Lacks b'/' n → dir_name n ++ b'/' ∷ base_name n ≡ n
unfolding dir_name base_name
dir_name_slash_base_name n h = elim (Option-cases (rfind_slash n)) [
  | inl e ↦ absurd (h (rfind_slash-none n e))
  | inr (i, e) ↦ ground (arith, rfind_slash-some n i e)
]

-- `BaseName` of any text holds no slash.
pub base_name-Lacks : (n : Bytes) → Lacks b'/' (base_name n)
unfolding base_name
base_name-Lacks n = elim (Option-cases (rfind_slash n)) [
  | inl e ↦ ground (arith, rfind_slash-none n e)
  | inr (i, e) ↦ ground (arith, rfind_slash-some n i e)
]

-- `DirName` of a text that is not empty is shorter than the text.
pub length-dir_name : (n : Bytes) → n ≢ [] → length (dir_name n) < length n
unfolding dir_name
length-dir_name [] h = absurd (h refl)
length-dir_name (x ∷ xs) h = elim (Option-cases (rfind_slash (x ∷ xs))) [
  | inl e ↦ rw (e, dir_name) (omega arith)
  | inr (i, e) ↦
      rw (e, dir_name) (omega (arith, length-take i (x ∷ xs), (rfind_slash-some (x ∷ xs) i e).2))
]

-- Below the root the relative path is the path without its first byte; for a path of one byte it
-- is "./".
pub get_relative_path_lem :
    (rest : Bytes)
    → get_relative_path (b'/' ∷ rest) ≡ some (if bytes_eq rest [] then b'.' ∷ b'/' ∷ [] else rest)
unfolding get_relative_path bytes_eq
get_relative_path_lem [] = refl
get_relative_path_lem (c ∷ rest) = refl
