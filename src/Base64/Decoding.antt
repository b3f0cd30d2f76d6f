-- ===== src/Base64/Decoding.antt =====
-- The decoder as a function of the values of the characters, four by four.
use Prim.Native.Nat.{bit_or}
use mathlib.Core.Path.{subst}
use gitlstreefs.Base.{
  ℕ, zero, suc, ◌≡◌, refl, sym, ap, ◌∙◌, ◌+◌, ◌-◌, ◌*◌, ◌/◌, ◌%◌, ◌^◌, ◌≤◌, ◌<◌, Option,
  Option-cases, none, some, inl, inr, List, [], ◌∷◌, ◌++◌, All, arith, ltb, ◌==◌, true, Bool-cases,
  Bytes, index_of, length,
}
use gitlstreefs.Base.Outcome.{done}
use gitlstreefs.Base64.{letters, lookup, next_value, gather, emit_bytes, doit, base64decode}
use gitlstreefs.Base64.Bits.{bit_or-eq-add, zero-bit_or}

-- A byte that is no zero and no negative `char`.
abbrev pub IsPlain : ℕ → Type 0
IsPlain c = (0 < c) × (c < 128)

-- The place of a letter in the alphabet.
unfoldable pub place_of : ℕ → Option ℕ
place_of c = index_of c letters

-- The values of the characters that are letters of the alphabet.
unfoldable pub values : Bytes → List ℕ
values [] = []
values (c ∷ s) = elim (place_of c) [ none ↦ values s | some n ↦ n ∷ values s ]

index_of-append_zero : (c : ℕ) (xs : Bytes) → 0 < c → index_of c (xs ++ 0 ∷ []) ≡ index_of c xs
index_of-append_zero c [] h = ground arith
index_of-append_zero c (x ∷ xs) h = rw (index_of-append_zero c xs h) refl

index_of-lt : (c n : ℕ) (xs : Bytes) → index_of c xs ≡ some n → n < length xs
index_of-lt c n [] h = cc h
index_of-lt c n (x ∷ xs) h = elim (Bool-cases (x == c)) [
  | inl found ↦ let e = rw found at h in ground (arith, e)
  | inr other ↦ elim (Option-cases (index_of c xs)) [
    | inl e ↦ ground (arith, h, e, other)
    | inr (k, e) ↦ let l = index_of-lt c k xs e in ground (arith, h, e, other, l)
  ]
]

place_of-lt : (c n : ℕ) → place_of c ≡ some n → n < 64
unfolding place_of
place_of-lt c n h = index_of-lt c n letters h

lookup-plain : (c : ℕ) → IsPlain c → lookup c ≡ done (place_of c)
unfolding lookup place_of
lookup-plain c (pos, small) =
    let e : ltb c 128 ≡ true = ground arith in
    rw e (ap (λ t. done t) (index_of-append_zero c letters pos))

-- What the search for the next value finds, by the values of the text.
abbrev IsStep : Bytes → List ℕ → Type 0
IsStep s [] = next_value s ≡ done (none, [])
IsStep s (n ∷ ns) =
    (rest : Bytes) × (next_value s ≡ done (some n, rest))
    × (values rest ≡ ns)
    × (length rest < length s)
    × All IsPlain rest
    × (n < 64)

IsStep-skip :
    (c : ℕ) (s : Bytes) (ns : List ℕ)
    → next_value (c ∷ s) ≡ next_value s
    → IsStep s ns
    → IsStep (c ∷ s) ns
IsStep-skip c s [] e h = e ∙ h
IsStep-skip c s (n ∷ ns) e (rest, found, left, shorter, plain, small) =
    (rest, e ∙ found, left, omega arith, plain, small)

pub values-none : (c : ℕ) (s : Bytes) → place_of c ≡ none → values (c ∷ s) ≡ values s
unfolding values
values-none c s e = rw (e, values) refl

pub values-some : (c n : ℕ) (s : Bytes) → place_of c ≡ some n → values (c ∷ s) ≡ n ∷ values s
unfolding values
values-some c n s e = rw (e, values) refl

next_value-none :
    (c : ℕ) (s : Bytes) → IsPlain c → place_of c ≡ none → next_value (c ∷ s) ≡ next_value s
unfolding next_value
next_value-none c s p e = rw (lookup-plain c p, e) refl

next_value-some :
    (c n : ℕ) (s : Bytes) → IsPlain c → place_of c ≡ some n → next_value (c ∷ s) ≡ done (some n, s)
unfolding next_value
next_value-some c n s p e = rw (lookup-plain c p, e) refl

next_value-IsStep : (s : Bytes) → All IsPlain s → IsStep s (values s)
unfolding next_value values
next_value-IsStep [] h = refl
next_value-IsStep (c ∷ s) (p, h) = elim (Option-cases (place_of c)) [
  | inl e ↦
      subst (IsStep (c ∷ s)) (sym (values-none c s e))
        (IsStep-skip c s (values s) (next_value-none c s p e) (next_value-IsStep s h))
  | inr (n, e) ↦
      subst (IsStep (c ∷ s)) (sym (values-some c n s e))
        (s, next_value-some c n s p e, refl, omega arith, h, place_of-lt c n e)
]

gather-stop :
    (left j result : ℕ) (s : Bytes)
    → IsStep s []
    → gather (suc left) j result s ≡ done (j, result, [])
unfolding gather
gather-stop left j result [] h = refl
gather-stop left j result (c ∷ s) h = rw h refl

gather-go :
    (left j result : ℕ) (s : Bytes) (n : ℕ) (rest : Bytes)
    → next_value s ≡ done (some n, rest)
    → length rest < length s
    → gather (suc left) j result s
      ≡ gather left (suc j) (bit_or result (n * 2 ^ ((3 - j) * 6))) rest
unfolding gather
gather-go left j result [] n rest e l = absurd (omega arith)
gather-go left j result (c ∷ s) n rest e l = rw e refl

-- The four values as one number.
abbrev pub word : ℕ → ℕ → ℕ → ℕ → ℕ
word a b c d = a * 2 ^ 18 + b * 2 ^ 12 + c * 2 ^ 6 + d

-- The bytes of four values, and of what is left at the end.
abbrev pub groups : List ℕ → Bytes
groups [] = []
groups (a ∷ []) = []
groups (a ∷ b ∷ []) = word a b 0 0 / 2 ^ 16 % 256 ∷ []
groups (a ∷ b ∷ c ∷ []) = word a b c 0 / 2 ^ 16 % 256 ∷ word a b c 0 / 2 ^ 8 % 256 ∷ []
groups (a ∷ b ∷ c ∷ d ∷ ns) =
    word a b c d / 2 ^ 16 % 256
    ∷ word a b c d / 2 ^ 8 % 256
    ∷ word a b c d / 2 ^ 0 % 256
    ∷ groups ns

or_first : (a : ℕ) → bit_or 0 (a * 2 ^ 18) ≡ word a 0 0 0
or_first a = zero-bit_or (a * 2 ^ 18) ∙ omega arith

or_second : (a b : ℕ) → b < 64 → bit_or (word a 0 0 0) (b * 2 ^ 12) ≡ word a b 0 0
or_second a b h =
    ap (λ k. bit_or k (b * 2 ^ 12)) (omega arith)
    ∙ bit_or-eq-add 18 a (b * 2 ^ 12) (omega arith)
    ∙ omega arith

or_third : (a b c : ℕ) → c < 64 → bit_or (word a b 0 0) (c * 2 ^ 6) ≡ word a b c 0
or_third a b c h =
    let e : word a b 0 0 ≡ (a * 64 + b) * 2 ^ 12 = omega arith in
    rw e (bit_or-eq-add 12 (a * 64 + b) (c * 2 ^ 6) (omega arith) ∙ omega arith)

or_fourth : (a b c d : ℕ) → d < 64 → bit_or (word a b c 0) (d * 2 ^ 0) ≡ word a b c d
or_fourth a b c d h =
    let e : word a b c 0 ≡ ((a * 64 + b) * 64 + c) * 2 ^ 6 = omega arith in
    rw e (bit_or-eq-add 6 ((a * 64 + b) * 64 + c) (d * 2 ^ 0) (omega arith) ∙ omega arith)

gather_done : (j result : ℕ) (s : Bytes) → gather 0 j result s ≡ done (j, result, s)
unfolding gather
gather_done j result s = refl

-- A text that is left after some values were taken.
abbrev Left : Bytes → Bytes → List ℕ → Type 0
Left s rest ns = (length rest < length s) × (values rest ≡ ns) × All IsPlain rest

Left-IsStep : (s rest : Bytes) (ns : List ℕ) → Left s rest ns → IsStep rest ns
Left-IsStep s rest ns (shorter, left, plain) =
    subst (IsStep rest) left (next_value-IsStep rest plain)

-- A round of `gather`, from one result to another.
abbrev Round : ℕ → ℕ → ℕ → ℕ → Bytes → List ℕ → Type 0
Round left j old new s ns =
    (rest : Bytes) × (gather (suc left) j old s ≡ gather left (suc j) new rest) × Left s rest ns

round_lem :
    (left j old new n : ℕ) (s : Bytes) (ns : List ℕ)
    → (n < 64 → bit_or old (n * 2 ^ ((3 - j) * 6)) ≡ new)
    → IsStep s (n ∷ ns)
    → Round left j old new s ns
round_lem left j old new n s ns joined (rest, found, left_over, shorter, plain, small) = (
  rest,
  gather-go left j old s n rest found shorter ∙ ap (λ k. gather left (suc j) k rest) (joined small),
  (shorter, left_over, plain),
)

module _ (fuel : ℕ)
    (doit_rest : (rest : Bytes)
      → length rest < fuel
      → All IsPlain rest
      → doit fuel rest ≡ done (groups (values rest))) where
  doit_empty : 0 < fuel → doit fuel [] ≡ done []
  unfolding values
  doit_empty l = doit_rest [] l tt

  -- The round of `doit`, by what it gathers.
  doit_step :
      (c : ℕ) (s : Bytes) (j result : ℕ) (rest output : Bytes)
      → gather 4 0 0 (c ∷ s) ≡ done (j, result, rest)
      → doit fuel rest ≡ done output
      → doit (suc fuel) (c ∷ s) ≡ done (emit_bytes (j - 1) 0 result ++ output)
  unfolding doit
  doit_step c s j result rest output e f = rw (e, f) refl

  doit_round :
      (c : ℕ) (s : Bytes) (ns : List ℕ)
      → length (c ∷ s) ≤ fuel
      → IsStep (c ∷ s) ns
      → doit (suc fuel) (c ∷ s) ≡ done (groups ns)
  unfolding emit_bytes
  doit_round c s [] l h =
      doit_step c s 0 0 [] [] (gather-stop 3 0 0 (c ∷ s) h) (doit_empty (omega arith))
  doit_round c s (a ∷ []) l h =
      let (r1, e1, k1) = round_lem 3 0 0 (word a 0 0 0) a (c ∷ s) [] (λ x. or_first a) h in
      doit_step c s 1 (word a 0 0 0) [] []
        (e1 ∙ gather-stop 2 1 (word a 0 0 0) r1 (Left-IsStep (c ∷ s) r1 [] k1))
        (doit_empty (omega arith))
  doit_round c s (a ∷ b ∷ []) l h =
      let (r1, e1, k1) = round_lem 3 0 0 (word a 0 0 0) a (c ∷ s) (b ∷ []) (λ x. or_first a) h in
      let (r2, e2, k2) =
        round_lem 2 1 (word a 0 0 0) (word a b 0 0) b r1 [] (λ x. or_second a b x)
          (Left-IsStep (c ∷ s) r1 (b ∷ []) k1) in
      doit_step c s 2 (word a b 0 0) [] []
        (e1 ∙ e2 ∙ gather-stop 1 2 (word a b 0 0) r2 (Left-IsStep r1 r2 [] k2))
        (doit_empty (omega arith))
  doit_round c s (a ∷ b ∷ d ∷ []) l h =
      let (r1, e1, k1) =
        round_lem 3 0 0 (word a 0 0 0) a (c ∷ s) (b ∷ d ∷ []) (λ x. or_first a) h in
      let (r2, e2, k2) =
        round_lem 2 1 (word a 0 0 0) (word a b 0 0) b r1 (d ∷ []) (λ x. or_second a b x)
          (Left-IsStep (c ∷ s) r1 (b ∷ d ∷ []) k1) in
      let (r3, e3, k3) =
        round_lem 1 2 (word a b 0 0) (word a b d 0) d r2 [] (λ x. or_third a b d x)
          (Left-IsStep r1 r2 (d ∷ []) k2) in
      doit_step c s 3 (word a b d 0) [] []
        (e1 ∙ e2 ∙ e3 ∙ gather-stop 0 3 (word a b d 0) r3 (Left-IsStep r2 r3 [] k3))
        (doit_empty (omega arith))
  doit_round c s (a ∷ b ∷ d ∷ e ∷ ns) l h =
      let (r1, e1, k1) =
        round_lem 3 0 0 (word a 0 0 0) a (c ∷ s) (b ∷ d ∷ e ∷ ns) (λ x. or_first a) h in
      let (r2, e2, k2) =
        round_lem 2 1 (word a 0 0 0) (word a b 0 0) b r1 (d ∷ e ∷ ns) (λ x. or_second a b x)
          (Left-IsStep (c ∷ s) r1 (b ∷ d ∷ e ∷ ns) k1) in
      let (r3, e3, k3) =
        round_lem 1 2 (word a b 0 0) (word a b d 0) d r2 (e ∷ ns) (λ x. or_third a b d x)
          (Left-IsStep r1 r2 (d ∷ e ∷ ns) k2) in
      let (r4, e4, k4) =
        round_lem 0 3 (word a b d 0) (word a b d e) e r3 ns (λ x. or_fourth a b d e x)
          (Left-IsStep r2 r3 (e ∷ ns) k3) in
      let left : doit fuel r4 ≡ done (groups ns) =
        doit_rest r4 (omega (arith, k1.0, k2.0, k3.0, k4.0)) k4.2
        ∙ ap (λ t. done (groups t)) k4.1 in
      doit_step c s 4 (word a b d e) r4 (groups ns)
        (e1 ∙ e2 ∙ e3 ∙ e4 ∙ gather_done 4 (word a b d e) r4) left

doit-groups :
    (fuel : ℕ) (s : Bytes)
    → length s < fuel
    → All IsPlain s
    → doit fuel s ≡ done (groups (values s))
unfolding doit values
doit-groups zero s l h = absurd (omega arith)
doit-groups (suc fuel) [] l h = refl
doit-groups (suc fuel) (c ∷ s) l h =
    doit_round fuel (doit-groups fuel) c s (values (c ∷ s)) (omega arith)
      (next_value-IsStep (c ∷ s) h)

pub base64decode-groups : (s : Bytes) → All IsPlain s → base64decode s ≡ done (groups (values s))
unfolding base64decode
base64decode-groups s h = doit-groups (suc (length s)) s (omega arith) h
