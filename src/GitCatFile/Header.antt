-- ===== src/GitCatFile/Header.antt =====
-- Lemmas on how `GitCatFileMetadata` reads the header of a reply.
use gitlstreefs.Base.{
  ℕ, suc, ◌+◌, ◌<◌, ◌≡◌, refl, ap, ◌∙◌, false, some, [], ◌∷◌, ◌++◌, append_assoc, arith, ◌==◌,
  Bytes, All, Lacks, index_of, find, substr, take, drop, length, length-append,
  drop-append_suc-length, take-append_length, IsDigit,
}

-- The first `c` behind a text that lacks it.
index_of-append : (c : ℕ) (s t : Bytes) → Lacks c s → index_of c (s ++ c ∷ t) ≡ some (length s)
index_of-append c [] t h = ground arith
index_of-append c (x ∷ s) t h = ground (arith, index_of-append c s t)

Lacks-append : (c : ℕ) (s t : Bytes) → Lacks c s → Lacks c t → Lacks c (s ++ t)
Lacks-append c [] t h k = k
Lacks-append c (x ∷ s) t h k = ground (arith, Lacks-append c s t)

IsDigit-Lacks : (c : ℕ) (s : Bytes) → c < 48 → All IsDigit s → Lacks c s
IsDigit-Lacks c [] h k = refl
IsDigit-Lacks c (x ∷ s) h k = ground (arith, IsDigit-Lacks c s)

-- The header "sha1 type size" as git prints it, and what follows.
abbrev pub found_reply : Bytes → Bytes → Bytes → Bytes → Bytes
found_reply sha1 type digits rest = sha1 ++ b' ' ∷ type ++ b' ' ∷ digits ++ b'\n' ∷ rest

abbrev pub first_line : Bytes → Bytes → Bytes → Bytes
first_line sha1 type digits = sha1 ++ b' ' ∷ type ++ b' ' ∷ digits

-- The reply cut at the first and at the second space.
cut_first :
    (sha1 type digits rest : Bytes)
    → found_reply sha1 type digits rest
      ≡ sha1 ++ (b' ' ∷ (type ++ (b' ' ∷ (digits ++ b'\n' ∷ rest))))
cut_first sha1 type digits rest =
    append_assoc (sha1 ++ b' ' ∷ type) (b' ' ∷ digits) (b'\n' ∷ rest)
    ∙ append_assoc sha1 (b' ' ∷ type) (b' ' ∷ (digits ++ b'\n' ∷ rest))

cut_second :
    (sha1 type digits rest : Bytes)
    → found_reply sha1 type digits rest ≡ (sha1 ++ b' ' ∷ type) ++ (b' ' ∷ (digits ++ b'\n' ∷ rest))
cut_second sha1 type digits rest = append_assoc (sha1 ++ b' ' ∷ type) (b' ' ∷ digits) (b'\n' ∷ rest)

find_lem :
    (s : Bytes) (c pos k : ℕ) → index_of c (drop pos s) ≡ some k → find s c pos ≡ some (pos + k)
find_lem s c pos k e = rw e

Lacks-cons : (c x : ℕ) (s : Bytes) → (x == c) ≡ false → Lacks c s → Lacks c (x ∷ s)
Lacks-cons c x s h k = ground arith

pub Lacks-first_line :
    (sha1 type digits : Bytes)
    → Lacks b'\n' sha1
    → Lacks b'\n' type
    → All IsDigit digits
    → Lacks b'\n' (first_line sha1 type digits)
Lacks-first_line sha1 type digits h k d =
    Lacks-append b'\n' (sha1 ++ b' ' ∷ type) (b' ' ∷ digits)
      (Lacks-append b'\n' sha1 (b' ' ∷ type) h (Lacks-cons b'\n' b' ' type refl k))
      (Lacks-cons b'\n' b' ' digits refl (IsDigit-Lacks b'\n' digits (omega arith) d))

pub find_newline :
    (sha1 type digits rest : Bytes)
    → Lacks b'\n' (first_line sha1 type digits)
    → find (found_reply sha1 type digits rest) b'\n' 0 ≡ some (length (first_line sha1 type digits))
find_newline sha1 type digits rest free =
    find_lem (found_reply sha1 type digits rest) b'\n' 0 (length (first_line sha1 type digits))
      (index_of-append b'\n' (first_line sha1 type digits) rest free)
    ∙ ap some (omega arith)

pub find_first_space :
    (sha1 type digits rest : Bytes)
    → Lacks b' ' sha1
    → find (found_reply sha1 type digits rest) b' ' 0 ≡ some (length sha1)
find_first_space sha1 type digits rest h =
    find_lem (found_reply sha1 type digits rest) b' ' 0 (length sha1) (
      ap (index_of b' ') (cut_first sha1 type digits rest)
      ∙ index_of-append b' ' sha1 (type ++ (b' ' ∷ (digits ++ b'\n' ∷ rest))) h)
    ∙ ap some (omega arith)

drop_first :
    (sha1 type digits rest : Bytes)
    → drop (suc (length sha1)) (found_reply sha1 type digits rest)
      ≡ type ++ (b' ' ∷ (digits ++ b'\n' ∷ rest))
drop_first sha1 type digits rest =
    ap (drop (suc (length sha1))) (cut_first sha1 type digits rest)
    ∙ drop-append_suc-length sha1 b' ' (type ++ (b' ' ∷ (digits ++ b'\n' ∷ rest)))

pub find_second_space :
    (sha1 type digits rest : Bytes)
    → Lacks b' ' type
    → find (found_reply sha1 type digits rest) b' ' (suc (length sha1))
      ≡ some (suc (length sha1) + length type)
find_second_space sha1 type digits rest h =
    find_lem (found_reply sha1 type digits rest) b' ' (suc (length sha1)) (length type) (
      ap (index_of b' ') (drop_first sha1 type digits rest)
      ∙ index_of-append b' ' type (digits ++ b'\n' ∷ rest) h)

pub length-first_line :
    (sha1 type digits : Bytes)
    → length (first_line sha1 type digits) ≡ suc (length sha1) + length type + suc (length digits)
length-first_line sha1 type digits =
    omega
      (arith, length-append (sha1 ++ b' ' ∷ type) (b' ' ∷ digits), length-append sha1 (b' ' ∷ type))

pub substr_type :
    (sha1 type digits rest : Bytes)
    → substr (found_reply sha1 type digits rest) (suc (length sha1)) (length type) ≡ type
substr_type sha1 type digits rest =
    ap (take (length type)) (drop_first sha1 type digits rest)
    ∙ take-append_length type (b' ' ∷ (digits ++ b'\n' ∷ rest))

pub substr_sha1 :
    (sha1 type digits rest : Bytes)
    → substr (found_reply sha1 type digits rest) 0 (length sha1) ≡ sha1
substr_sha1 sha1 type digits rest =
    ap (take (length sha1)) (cut_first sha1 type digits rest)
    ∙ take-append_length sha1 (b' ' ∷ (type ++ (b' ' ∷ (digits ++ b'\n' ∷ rest))))

pub drop_digits :
    (sha1 type digits rest : Bytes)
    → drop (suc (suc (length sha1) + length type)) (found_reply sha1 type digits rest)
      ≡ digits ++ b'\n' ∷ rest
drop_digits sha1 type digits rest =
    let e : suc (suc (length sha1) + length type) ≡ suc (length (sha1 ++ b' ' ∷ type)) =
      omega (arith, length-append sha1 (b' ' ∷ type)) in
    ap (λ n. drop n (found_reply sha1 type digits rest)) e
    ∙ ap (drop (suc (length (sha1 ++ b' ' ∷ type)))) (cut_second sha1 type digits rest)
    ∙ drop-append_suc-length (sha1 ++ b' ' ∷ type) b' ' (digits ++ b'\n' ∷ rest)
