-- ===== src/Base64.antt =====
-- base64decode.h and base64decode.cc. A `char` is signed: `lookup_` is read out of its bounds for a
-- byte from 128 on. A position in the text is the text that is left.
pub mod Bits
pub mod Decoding
pub mod RoundTrip
mod Tests
use Prim.Native.Nat.{bit_or}
use gitlstreefs.Base.{
  ℕ, zero, suc, ◌+◌, ◌-◌, ◌*◌, ◌/◌, ◌%◌, ◌^◌, Option, none, some, [], ◌∷◌, ◌++◌, ltb, if◌then◌else◌,
  Bytes, codes, index_of, length,
}
use gitlstreefs.Base.Outcome.{Outcome, done, undefined, out_of_fuel, ◌>>=◌}

abbrev pub letters : Bytes
letters = codes "ABCDEFGHIJKLMNOPQRSTUVWXYZabcdefghijklmnopqrstuvwxyz0123456789+/"

-- The array with its zero.
abbrev pub k_alphabet : Bytes
k_alphabet = letters ++ 0 ∷ []

-- `lookup_`; `none` is `kEmptyChar`.
unfoldable pub lookup : ℕ → Outcome (Option ℕ)
lookup c = if ltb c 128 then done (index_of c k_alphabet) else undefined

-- The `do` loop: the value of the next character that has one, and what is left of the text.
unfoldable pub next_value : Bytes → Outcome (Option ℕ × Bytes)
next_value [] = done (none, [])
next_value (c ∷ s) = lookup c >>= λ t. elim t [ some n ↦ done (some n, s) | none ↦ next_value s ]

-- The loop over `j` up to 4, with the rounds that are left; `j`, `result` and the text are returned.
unfoldable pub gather : ℕ → ℕ → ℕ → Bytes → Outcome (ℕ × ℕ × Bytes)
gather zero j result s = done (j, result, s)
gather (suc left) j result [] = done (j, result, [])
gather (suc left) j result (c ∷ s) = next_value (c ∷ s) >>= λ (t, rest). elim t [
  | none ↦ done (j, result, rest)
  | some n ↦ gather left (suc j) (bit_or result (n * 2 ^ ((3 - j) * 6))) rest
]

-- The loop over `k`, with the rounds that are left.
unfoldable pub emit_bytes : ℕ → ℕ → ℕ → Bytes
emit_bytes zero k result = []
emit_bytes (suc left) k result = result / 2 ^ ((2 - k) * 8) % 256 ∷ emit_bytes left (suc k) result

-- The outer loop; every round takes a byte of the text.
unfoldable pub doit : ℕ → Bytes → Outcome Bytes
doit zero s = out_of_fuel
doit (suc fuel) [] = done []
doit (suc fuel) (c ∷ s) = gather 4 0 0 (c ∷ s) >>= λ (j, result, rest).
    doit fuel rest >>= λ output. done (emit_bytes (j - 1) 0 result ++ output)

unfoldable pub base64decode : Bytes → Outcome Bytes
base64decode b64 = doit (suc (length b64)) b64
