-- ===== src/Split.antt =====
-- `SplitStringUsing` of strutil.cc.
pub mod Pieces
pub mod Fields
mod Tests
use gitlstreefs.Base.{
  ℕ, zero, suc, ◌+◌, ◌-◌, Bool, ◌&&◌, Option, none, some, List, [], ◌∷◌, ◌++◌, ◌==◌, if◌then◌else◌,
  Bytes, find, substr, drop, length,
}

-- What one round appends, with `i = s.find(c, prev)`.
emit : Bytes → ℕ → Bool → ℕ → List Bytes → List Bytes
emit s prev token_compress i result =
    if token_compress && (i - prev == 0) then result else result ++ substr s prev (i - prev) ∷ []

-- The loop at its test: `i` is the last delimiter (or 0 at the start), `result` what was found. At
-- npos the token is the rest of `s`, never counts as empty (npos - prev is not 0), and the test
-- `i < s.size()` ends the loop. The fuel bounds the rounds; `none` means that it ran out.
split_loop : ℕ → Bytes → ℕ → Bool → ℕ → List Bytes → Option (List Bytes)
unfolding emit
split_loop zero s c token_compress prev result = none
split_loop (suc fuel) s c token_compress prev result = elim (find s c prev) [
  | none ↦ some (result ++ drop prev s ∷ [])
  | some i ↦ split_loop fuel s c token_compress (suc i) (emit s prev token_compress i result)
]

-- The first test `0 < s.size()` fails on an empty text.
unfoldable pub split_string_using : Bytes → ℕ → Bool → Option (List Bytes)
unfolding split_loop
split_string_using [] c token_compress = some []
split_string_using s c token_compress = split_loop (suc (length s)) s c token_compress 0 []
