-- ===== src/Base/Strtol.antt =====
-- `strtol` of the C library in a base above 1: white space, a sign, for base 16 a prefix "0x", then
-- the longest run of digits; saturated to a `long` of 64 bits. `strtol` gives the magnitude and
-- whether the number is negative.
use Prim.Native.Nat.{ℕ, zero, suc, ◌+◌, ◌*◌, ◌-◌, ◌/◌, ◌%◌, ◌^◌, ◌<◌, min}
use mathlib.Core.Path.{◌≡◌, refl, sym, ap, ◌∙◌}
use native.Mathlib.Omega.{arith}
use gitlstreefs.Base.Lists.{All}
use mathlib.Core.Bool.{Bool, true, false, ◌&&◌, ◌||◌}
use mathlib.Core.List.{[], ◌∷◌, ◌++◌}
use gitlstreefs.Base.Tests.{ltb, leb, ◌==◌, if◌then◌else◌}
use gitlstreefs.Base.Text.{Bytes, codes}

is_space : ℕ → Bool
is_space c = c == 32 || leb 9 c && leb c 13

skip_space : Bytes → Bytes
skip_space [] = []
skip_space (c ∷ s) = if is_space c then skip_space s else c ∷ s

-- The value of a digit, 36 for what is none.
digit_value : ℕ → ℕ
digit_value c =
    if leb b'0' c && leb c b'9'
    then c - 48
    else if leb b'a' c && leb c b'z'
    then c - 87
    else if leb b'A' c && leb c b'Z'
    then c - 55
    else 36

digits_value : ℕ → ℕ → Bytes → ℕ
digits_value base n [] = n
digits_value base n (c ∷ s) =
    let rest = digits_value base (n * base + digit_value c) s in
    if ltb (digit_value c) base then rest else n

-- A prefix counts only if a digit follows it.
drop_prefix : ℕ → Bytes → Bytes
drop_prefix base (z ∷ x ∷ d ∷ s) =
    if base == 16 && z == b'0' && (x == b'x' || x == b'X') && ltb (digit_value d) 16
    then d ∷ s
    else z ∷ x ∷ d ∷ s
drop_prefix base s = s

magnitude : ℕ → Bytes → ℕ
magnitude base s = digits_value base 0 (drop_prefix base s)

signed : ℕ → Bytes → Bool × ℕ
signed base [] = (false, 0)
signed base (c ∷ s) =
    if c == b'-'
    then (true, min (2 ^ 63) (magnitude base s))
    else if c == b'+'
    then (false, min (2 ^ 63 - 1) (magnitude base s))
    else (false, min (2 ^ 63 - 1) (magnitude base (c ∷ s)))

pub strtol : Bytes → ℕ → Bool × ℕ
strtol s base = signed base (skip_space s)

-- A number in decimal digits.
abbrev pub IsDigit : ℕ → Type 0
IsDigit c = (leb 48 c && leb c 57) ≡ true

abbrev decimal_from : ℕ → Bytes → ℕ
decimal_from n [] = n
decimal_from n (c ∷ s) = decimal_from (n * 10 + (c - 48)) s

abbrev pub decimal_value : Bytes → ℕ
decimal_value s = decimal_from 0 s

digits_value-decimal :
    (n c : ℕ) (s t : Bytes)
    → All IsDigit s
    → (leb 48 c && leb c 57 || leb 65 c && leb c 90 || leb 97 c && leb c 122) ≡ false
    → digits_value 10 n (s ++ c ∷ t) ≡ decimal_from n s
unfolding digits_value digit_value
digits_value-decimal n c [] t h k = ground arith
digits_value-decimal n c (x ∷ s) t h k =
    let e : digit_value x ≡ x - 48 = ground arith in
    rw e (ground (arith, digits_value-decimal (n * 10 + (x - 48)) c s t))

drop_prefix_ten : (s : Bytes) → drop_prefix 10 s ≡ s
unfolding drop_prefix
drop_prefix_ten [] = refl
drop_prefix_ten (a ∷ []) = refl
drop_prefix_ten (a ∷ b ∷ []) = refl
drop_prefix_ten (a ∷ b ∷ c ∷ s) = refl

skip_space-digit : (x : ℕ) (s : Bytes) → IsDigit x → skip_space (x ∷ s) ≡ x ∷ s
unfolding skip_space is_space
skip_space-digit x s h = ground arith

signed-digit :
    (x : ℕ) (s : Bytes)
    → IsDigit x
    → signed 10 (x ∷ s) ≡ (false, min (2 ^ 63 - 1) (magnitude 10 (x ∷ s)))
unfolding signed
signed-digit x s h =
    let minus : (x == b'-') ≡ false = ground arith in
    let plus : (x == b'+') ≡ false = ground arith in rw (minus, plus)

-- A run of decimal digits is read as its number.
pub strtol-digits :
    (x c : ℕ) (s t : Bytes)
    → All IsDigit (x ∷ s)
    → (leb 48 c && leb c 57 || leb 65 c && leb c 90 || leb 97 c && leb c 122) ≡ false
    → decimal_value (x ∷ s) < 2 ^ 31
    → strtol ((x ∷ s) ++ c ∷ t) 10 ≡ (false, decimal_value (x ∷ s))
unfolding strtol
strtol-digits x c s t h k small =
    let m : magnitude 10 ((x ∷ s) ++ c ∷ t) ≡ decimal_value (x ∷ s) =
      unfold magnitude in
      rw (drop_prefix_ten ((x ∷ s) ++ c ∷ t)) (digits_value-decimal 0 c (x ∷ s) t h k) in
    let fits : min (2 ^ 63 - 1) (decimal_value (x ∷ s)) ≡ decimal_value (x ∷ s) = omega arith in
    ap (signed 10) (skip_space-digit x (s ++ c ∷ t) h.0)
    ∙ signed-digit x (s ++ c ∷ t) h.0
    ∙ ap (λ n. (false, min (2 ^ 63 - 1) n)) m
    ∙ ap (λ n. (false, n)) fits

-- One digit alone.
pub strtol_digit : (x : ℕ) → IsDigit x → strtol (x ∷ []) 10 ≡ (false, x - 48)
unfolding strtol
strtol_digit x h =
    let value : digit_value x ≡ x - 48 = unfold digit_value in ground arith in
    let m : magnitude 10 (x ∷ []) ≡ x - 48 =
      unfold magnitude in unfold drop_prefix in unfold digits_value in rw value (ground arith) in
    let fits : min (2 ^ 63 - 1) (x - 48) ≡ x - 48 = ground arith in
    ap (signed 10) (skip_space-digit x [] h)
    ∙ signed-digit x [] h
    ∙ ap (λ n. (false, min (2 ^ 63 - 1) n)) m
    ∙ ap (λ n. (false, n)) fits

-- Eight hexadecimal digits.
abbrev pub hex_digit : ℕ → ℕ
hex_digit k = if ltb k 10 then k + 48 else k + 55

abbrev hex_onto : ℕ → ℕ → Bytes → Bytes
hex_onto zero n s = s
hex_onto (suc w) n s = hex_onto w (n / 16) (hex_digit (n % 16) ∷ s)

abbrev pub hex8 : ℕ → Bytes
hex8 n = hex_onto 8 n []

-- What is left of `n` without its last `w` digits.
abbrev without_digits : ℕ → ℕ → ℕ
without_digits zero n = n
without_digits (suc w) n = without_digits w (n / 16)

digit_value-hex_digit : (k : ℕ) → k < 16 → digit_value (hex_digit k) ≡ k
unfolding digit_value
digit_value-hex_digit k h = ground arith

digits_value-hex :
    (n : ℕ) (s : Bytes) → digits_value 16 (n / 16) (hex_digit (n % 16) ∷ s) ≡ digits_value 16 n s
unfolding digits_value
digits_value-hex n s =
    let small : n % 16 < 16 = omega arith in
    let value = digit_value-hex_digit (n % 16) small in
    let below : ltb (n % 16) 16 ≡ true = ground arith in
    let whole : n / 16 * 16 + n % 16 ≡ n = omega arith in rw (value, below, whole)

digits_value-hex_onto :
    (w n : ℕ) (s : Bytes)
    → without_digits w n ≡ 0
    → digits_value 16 0 (hex_onto w n s) ≡ digits_value 16 n s
digits_value-hex_onto zero n s h = ap (λ k. digits_value 16 k s) (sym h)
digits_value-hex_onto (suc w) n s h =
    digits_value-hex_onto w (n / 16) (hex_digit (n % 16) ∷ s) h ∙ digits_value-hex n s

digits_value-hex8 : (n : ℕ) → n < 2 ^ 32 → digits_value 16 0 (hex8 n) ≡ n
unfolding digits_value
digits_value-hex8 n h = digits_value-hex_onto 8 n [] (omega arith)

-- No hexadecimal digit is white space, a sign or the x of a prefix.
hex_digit-plain :
    (k : ℕ)
    → k < 16
    → (is_space (hex_digit k) ≡ false)
      × ((hex_digit k == b'-') ≡ false)
      × ((hex_digit k == b'+') ≡ false)
      × ((hex_digit k == b'x' || hex_digit k == b'X') ≡ false)
unfolding is_space
hex_digit-plain k h = (ground arith, ground arith, ground arith, ground arith)

strtol-plain :
    (a b c : ℕ) (s : Bytes)
    → is_space a ≡ false
    → (a == b'-') ≡ false
    → (a == b'+') ≡ false
    → (b == b'x' || b == b'X') ≡ false
    → strtol (a ∷ b ∷ c ∷ s) 16 ≡ (false, min (2 ^ 63 - 1) (digits_value 16 0 (a ∷ b ∷ c ∷ s)))
unfolding strtol skip_space signed magnitude drop_prefix
strtol-plain a b c s h minus plus prefix = ground (arith, h, minus, plus, prefix)

pub strtol-hex8 : (n : ℕ) → n < 2 ^ 32 → strtol (hex8 n) 16 ≡ (false, n)
strtol-hex8 n h =
    let d : (k : ℕ) → _ = λ k. hex_digit-plain (k % 16) (omega arith) in
    let a = d (n / 16 / 16 / 16 / 16 / 16 / 16 / 16) in
    let b = d (n / 16 / 16 / 16 / 16 / 16 / 16) in
    let fits : min (2 ^ 63 - 1) n ≡ n = omega arith in
    strtol-plain _ _ _ _ a.0 a.1 a.2 b.3
    ∙ ap (λ k. (false, min (2 ^ 63 - 1) k)) (digits_value-hex8 n h)
    ∙ ap (λ k. (false, k)) fits

-- The modes that git lists for a file and for a directory.
pub strtol_file : strtol (codes "100644") 8 ≡ (false, 0x81a4)
unfolding strtol signed skip_space is_space magnitude drop_prefix digits_value digit_value
strtol_file = refl

pub strtol_folder : strtol (codes "040000") 8 ≡ (false, 0x4000)
unfolding strtol signed skip_space is_space magnitude drop_prefix digits_value digit_value
strtol_folder = refl
