-- ===== src/Base64/RoundTrip.antt =====
-- The decoder against an encoder as RFC 4648 describes it.
use gitlstreefs.Base.{
  ℕ, zero, suc, ◌≡◌, refl, sym, ap, ap₂, ◌∙◌, ◌+◌, ◌-◌, ◌*◌, ◌/◌, ◌%◌, ◌^◌, ◌<◌, ◌≤◌, Bool-cases,
  Bool, ◌&&◌, ◌||◌, Option, Option-cases, none, some, inl, inr, List, [], ◌∷◌, All, arith, ltb, leb,
  ◌==◌, true, false, if◌then◌else◌, Bytes,
}
use gitlstreefs.Base.Outcome.{done}
use gitlstreefs.Base64.{base64decode}
use gitlstreefs.Base64.Decoding.{
  IsPlain, place_of, values, values-none, values-some, word, groups, base64decode-groups,
}

-- The letter for a value below 64.
abbrev pub letter : ℕ → ℕ
letter t =
    if ltb t 26
    then t + b'A'
    else if ltb t 52
    then t - 26 + b'a'
    else if ltb t 62
    then t - 52 + b'0'
    else if t == 62
    then b'+'
    else b'/'

abbrev pub is_letter : ℕ → Bool
is_letter c =
    leb b'A' c && leb c b'Z'
    || leb b'a' c && leb c b'z'
    || leb b'0' c && leb c b'9'
    || c == b'+'
    || c == b'/'

abbrev pub letters_of : Bytes → Bytes
letters_of [] = []
letters_of (c ∷ s) = if is_letter c then c ∷ letters_of s else letters_of s

abbrev pub encode : Bytes → Bytes
encode [] = []
encode (x ∷ []) = letter (x / 4) ∷ letter (x % 4 * 16) ∷ b'=' ∷ b'=' ∷ []
encode (x ∷ y ∷ []) =
    letter (x / 4) ∷ letter (x % 4 * 16 + y / 16) ∷ letter (y % 16 * 4) ∷ b'=' ∷ []
encode (x ∷ y ∷ z ∷ s) =
    letter (x / 4)
    ∷ letter (x % 4 * 16 + y / 16)
    ∷ letter (y % 16 * 4 + z / 64)
    ∷ letter (z % 64)
    ∷ encode s

-- The test of `count` characters in a row, from the first on.
in_a_row : (ℕ → Bool) → ℕ → ℕ → Bool
in_a_row test zero first = true
in_a_row test (suc count) first =
    let others = in_a_row test count (suc first) in if test first then others else false

in_a_row-at :
    (test : ℕ → Bool) (count first c : ℕ)
    → in_a_row test count first ≡ true
    → first ≤ c
    → c < first + count
    → test c ≡ true
unfolding in_a_row
in_a_row-at test zero first c e above under = absurd (omega arith)
in_a_row-at test (suc count) first c e above under = elim (Bool-cases (test first)) [
  | inr fails ↦ cc (rw fails at e)
  | inl holds ↦ elim (Bool-cases (first == c)) [
    | inl here ↦ let same : first ≡ c = ground arith in ap test (sym same) ∙ holds
    | inr later ↦ in_a_row-at test count (suc first) c (rw holds at e) (ground arith) (omega arith)
  ]
]

abbrev is_some_of : Option ℕ → ℕ → Bool
is_some_of none t = false
is_some_of (some n) t = n == t

is_some_of-eq : (o : Option ℕ) (t : ℕ) → is_some_of o t ≡ true → o ≡ some t
is_some_of-eq none t h = cc h
is_some_of-eq (some n) t h = ground arith

letters_in_place : in_a_row (λ t. is_some_of (place_of (letter t)) t) 64 0 ≡ true
unfolding in_a_row place_of
letters_in_place = refl

place_of-letter : (t : ℕ) → t < 64 → place_of (letter t) ≡ some t
place_of-letter t h = is_some_of-eq (place_of (letter t)) t (
    in_a_row-at (λ t. is_some_of (place_of (letter t)) t) 64 0 t letters_in_place (omega arith)
      (omega arith))

abbrev agrees : Option ℕ → Bool → Bool
agrees none b = if b then false else true
agrees (some n) b = b

letters_only : in_a_row (λ c. agrees (place_of c) (is_letter c)) 128 0 ≡ true
unfolding in_a_row place_of
letters_only = refl

letter-agrees : (c : ℕ) → c < 128 → agrees (place_of c) (is_letter c) ≡ true
letter-agrees c h =
    in_a_row-at (λ c. agrees (place_of c) (is_letter c)) 128 0 c letters_only (omega arith)
      (omega arith)

agrees-none : (b : Bool) → agrees none b ≡ true → b ≡ false
agrees-none true h = cc h
agrees-none false h = refl

-- Other characters have no value.
values-letters_of : (s : Bytes) → All IsPlain s → values s ≡ values (letters_of s)
values-letters_of [] h = refl
values-letters_of (c ∷ s) (p, h) =
    let rest = values-letters_of s h in
    let same = letter-agrees c p.1 in
    elim (Option-cases (place_of c)) [
      | inl e ↦
          let no_letter : is_letter c ≡ false = agrees-none (is_letter c) (rw e at same) in
          rw no_letter (values-none c s e ∙ rest)
      | inr (n, e) ↦
          let is : is_letter c ≡ true = rw e at same in
          rw is (values-some c n s e ∙ ap (◌∷◌ n) rest ∙ sym (values-some c n (letters_of s) e))
    ]

-- The values of the letters that encode the bytes.
abbrev sextets : Bytes → List ℕ
sextets [] = []
sextets (x ∷ []) = x / 4 ∷ x % 4 * 16 ∷ []
sextets (x ∷ y ∷ []) = x / 4 ∷ (x % 4 * 16 + y / 16) ∷ y % 16 * 4 ∷ []
sextets (x ∷ y ∷ z ∷ s) = x / 4 ∷ (x % 4 * 16 + y / 16) ∷ (y % 16 * 4 + z / 64) ∷ z % 64 ∷ sextets s

abbrev pub IsByte : ℕ → Type 0
IsByte x = x < 256

values-letter : (t : ℕ) (s : Bytes) → t < 64 → values (letter t ∷ s) ≡ t ∷ values s
values-letter t s h = values-some (letter t) t s (place_of-letter t h)

three :
    (x y z : ℕ) (s : Bytes)
    → x < 256
    → y < 256
    → z < 256
    → ◌≡◌ {A = Bytes}
        ((x * 65536 + y * 256 + z) / 2 ^ 16 % 256
          ∷ (x * 65536 + y * 256 + z) / 2 ^ 8 % 256
          ∷ (x * 65536 + y * 256 + z) / 2 ^ 0 % 256
          ∷ s)
        (x ∷ y ∷ z ∷ s)
three x y z s hx hy hz =
    let a : (x * 65536 + y * 256 + z) / 2 ^ 16 % 256 ≡ x = omega arith in
    let b : (x * 65536 + y * 256 + z) / 2 ^ 8 % 256 ≡ y = omega arith in
    let c : (x * 65536 + y * 256 + z) / 2 ^ 0 % 256 ≡ z = omega arith in rw (a, b, c) refl

groups-sextets : (x : Bytes) → All IsByte x → groups (sextets x) ≡ x
groups-sextets [] h = refl
groups-sextets (x ∷ []) h = ap (λ k. k ∷ []) (omega arith)
groups-sextets (x ∷ y ∷ []) h = ap₂ (λ k l. k ∷ l ∷ []) (omega arith) (omega arith)
groups-sextets (x ∷ y ∷ z ∷ s) h =
    let b = h.0 in
    let c = h.1.0 in
    let d = h.1.1.0 in
    let w : word (x / 4) (x % 4 * 16 + y / 16) (y % 16 * 4 + z / 64) (z % 64)
        ≡ x * 65536 + y * 256 + z =
      omega arith in
    rw (w, groups-sextets s h.1.1.1) (three x y z s b c d)

values-encode : (x : Bytes) → All IsByte x → values (encode x) ≡ sextets x
unfolding values place_of
values-encode [] h = refl
values-encode (x ∷ []) (hx, h) =
    values-letter (x / 4) (letter (x % 4 * 16) ∷ b'=' ∷ b'=' ∷ []) (omega arith)
    ∙ ap (◌∷◌ (x / 4)) (values-letter (x % 4 * 16) (b'=' ∷ b'=' ∷ []) (omega arith))
values-encode (x ∷ y ∷ []) (hx, (hy, h)) =
    let last = letter (y % 16 * 4) ∷ b'=' ∷ [] in
    values-letter (x / 4) (letter (x % 4 * 16 + y / 16) ∷ last) (omega arith)
    ∙ ap (◌∷◌ (x / 4)) (
        values-letter (x % 4 * 16 + y / 16) last (omega arith)
        ∙ ap (◌∷◌ (x % 4 * 16 + y / 16)) (values-letter (y % 16 * 4) (b'=' ∷ []) (omega arith)))
values-encode (x ∷ y ∷ z ∷ s) (hx, (hy, (hz, h))) =
    let last = letter (z % 64) ∷ encode s in
    let third = letter (y % 16 * 4 + z / 64) ∷ last in
    values-letter (x / 4) (letter (x % 4 * 16 + y / 16) ∷ third) (omega arith)
    ∙ ap (◌∷◌ (x / 4)) (
        values-letter (x % 4 * 16 + y / 16) third (omega arith)
        ∙ ap (◌∷◌ (x % 4 * 16 + y / 16)) (
            values-letter (y % 16 * 4 + z / 64) last (omega arith)
            ∙ ap (◌∷◌ (y % 16 * 4 + z / 64)) (
                values-letter (z % 64) (encode s) (omega arith)
                ∙ ap (◌∷◌ (z % 64)) (values-encode s h))))

letter-IsPlain : (t : ℕ) → t < 64 → IsPlain (letter t)
letter-IsPlain t h = (ground arith, ground arith)

padding-IsPlain : IsPlain b'='
padding-IsPlain = (omega arith, omega arith)

encode-IsPlain : (x : Bytes) → All IsByte x → All IsPlain (encode x)
encode-IsPlain [] h = tt
encode-IsPlain (x ∷ []) (hx, h) = (
  letter-IsPlain (x / 4) (omega arith),
  (letter-IsPlain (x % 4 * 16) (omega arith), (padding-IsPlain, (padding-IsPlain, tt))),
)
encode-IsPlain (x ∷ y ∷ []) (hx, (hy, h)) = (
  letter-IsPlain (x / 4) (omega arith),
  (
    letter-IsPlain (x % 4 * 16 + y / 16) (omega arith),
    (letter-IsPlain (y % 16 * 4) (omega arith), (padding-IsPlain, tt)),
  ),
)
encode-IsPlain (x ∷ y ∷ z ∷ s) (hx, (hy, (hz, h))) = (
  letter-IsPlain (x / 4) (omega arith),
  (
    letter-IsPlain (x % 4 * 16 + y / 16) (omega arith),
    (
      letter-IsPlain (y % 16 * 4 + z / 64) (omega arith),
      (letter-IsPlain (z % 64) (omega arith), encode-IsPlain s h),
    ),
  ),
)

-- A text whose letters of the alphabet are those of the encoded bytes, with any other characters
-- among them that are no zeros and no negative `char`s, line breaks and padding for instance, is
-- decoded to the bytes.
pub base64decode-encode :
    (x s : Bytes)
    → All IsByte x
    → All IsPlain s
    → letters_of s ≡ letters_of (encode x)
    → base64decode s ≡ done x
base64decode-encode x s h plain same =
    base64decode-groups s plain
    ∙ ap (λ v. done (groups v))
        (values-letters_of s plain
          ∙ ap values same
          ∙ sym (values-letters_of (encode x) (encode-IsPlain x h))
          ∙ values-encode x h)
    ∙ ap (λ t. done t) (groups-sextets x h)
