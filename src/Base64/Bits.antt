-- ===== src/Base64/Bits.antt =====
-- `bit_or` of numbers that have no binary digit in common.
use Prim.Native.Nat.{bit_or, max, digits, bit_or-bitwise}
use native.Mathlib.Nat.{pow-suc}
use gitlstreefs.Base.{ℕ, zero, suc, ◌∙◌, ◌≡◌, refl, ◌+◌, ◌*◌, ◌/◌, ◌^◌, ◌≤◌, ◌<◌, arith}

pub zero-bit_or : (b : ℕ) → bit_or 0 b ≡ b
zero-bit_or b = bit_or-bitwise 0 b

-- The digits of x and b are put together one by one, from the lowest on; x has k zeros there.
digits-sum : (x n k a b : ℕ) → x ≡ a * 2 ^ k → x ≤ n → b < 2 ^ k → digits (λ c. c) max n x b ≡ x + b
digits-sum zero zero k a b e h lt = omega arith
digits-sum zero (suc n) k a b e h lt = omega arith
digits-sum (suc x) zero k a b e h lt = absurd (omega arith)
digits-sum (suc x) (suc n) zero a b e h lt = omega (
  arith,
  digits-sum (suc x / 2) n 0 (suc x / 2) (b / 2) (omega arith) (omega arith) (omega arith),
)
digits-sum (suc x) (suc n) (suc k) a b e h lt =
    let twice : 2 ^ suc k ≡ 2 * 2 ^ k = rw pow-suc (omega arith) in
    let even : a * 2 ^ suc k ≡ 2 * (a * 2 ^ k) = rw pow-suc (omega arith) in
    omega (
      arith,
      even,
      digits-sum (suc x / 2) n k a (b / 2) (omega (arith, even)) (omega arith)
          (omega (arith, twice)),
    )

pub bit_or-eq-add : (k a b : ℕ) → b < 2 ^ k → bit_or (a * 2 ^ k) b ≡ a * 2 ^ k + b
bit_or-eq-add k a b h =
    bit_or-bitwise (a * 2 ^ k) b ∙ digits-sum (a * 2 ^ k) (a * 2 ^ k) k a b refl (omega arith) h
