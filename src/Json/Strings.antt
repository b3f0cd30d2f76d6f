-- ===== src/Json/Strings.antt =====
-- The parser reads back the printed strings, keywords and numbers.
use gitlstreefs.Base.{
  ℕ, zero, suc, ◌<◌, ◌≡◌, refl, ◌∙◌, inl, inr, Bool, true, false, ◌||◌, [], ◌∷◌, ◌++◌, arith, ◌==◌,
  append-nil, append_assoc, Bool-cases, Bytes, All, length,
}
use gitlstreefs.Base.Outcome.{done}
use gitlstreefs.Json.Value.{number_value, string_value}
use gitlstreefs.Json.Lexer.{
  peek, consume, valid_number, obtain_number, escaped_byte, escape, string_loop, obtain_string,
  skip_valid, valid_whitespace, skip_whitespace,
}
use gitlstreefs.Json.Printer.{print_chars, print_string, Stops, IsNumber}

pub skip_whitespace-none :
    (c : ℕ) (s : Bytes) → valid_whitespace c ≡ false → skip_whitespace (c ∷ s) ≡ c ∷ s
unfolding skip_whitespace skip_valid
skip_whitespace-none c s h = rw h

or-false : (a b : Bool) → (a || b) ≡ false → (a ≡ false) × (b ≡ false)
or-false a b h = ground arith

escape_self :
    (c : ℕ) (rest s : Bytes)
    → (c == b'"' || c == b'\\') ≡ true
    → escape c rest s ≡ (true, s ++ c ∷ [], rest)
unfolding escape escaped_byte
escape_self c rest s h = ground arith

module _ (N : Type 0) where
  step_plain :
      (fuel c : ℕ) (text s : Bytes)
      → (c == b'"' || c == b'\\') ≡ false
      → string_loop {N = N} (suc fuel) (c ∷ text) s ≡ string_loop fuel text (s ++ c ∷ [])
  unfolding string_loop
  step_plain fuel c text s h =
      let (unquoted, unescaped) = or-false (c == b'"') (c == b'\\') h in rw (unquoted, unescaped)

  step_escaped :
      (fuel c : ℕ) (text s : Bytes)
      → (c == b'"' || c == b'\\') ≡ true
      → string_loop {N = N} (suc fuel) (b'\\' ∷ c ∷ text) s ≡ string_loop fuel text (s ++ c ∷ [])
  unfolding string_loop
  step_escaped fuel c text s h = rw (escape_self c text s h)

  string_loop-print_chars :
      (s rest acc : Bytes) (fuel : ℕ)
      → length (print_chars s (b'"' ∷ rest)) < fuel
      → string_loop {N = N} fuel (print_chars s (b'"' ∷ rest)) acc
        ≡ done (string_value (acc ++ s), rest)
  unfolding print_chars
  string_loop-print_chars s rest acc zero h = absurd (omega arith)
  string_loop-print_chars [] rest acc (suc fuel) h = rw append-nil (unfold string_loop in refl)
  string_loop-print_chars (c ∷ s) rest acc (suc fuel) h =
      elim (Bool-cases (c == b'"' || c == b'\\')) [
        | inl e ↦
            let h' = rw e at h in
            rw e (
              step_escaped fuel c (print_chars s (b'"' ∷ rest)) acc e
              ∙ string_loop-print_chars s rest (acc ++ c ∷ []) fuel (omega arith)
              ∙ rw append_assoc)
        | inr e ↦
            let h' = rw e at h in
            rw e (
              step_plain fuel c (print_chars s (b'"' ∷ rest)) acc e
              ∙ string_loop-print_chars s rest (acc ++ c ∷ []) fuel (omega arith)
              ∙ rw append_assoc)
      ]

  -- A string of any bytes, printed in quotes with its quotes and backslashes escaped, is read back,
  -- and the text behind it is left.
  pub obtain_string-print_string :
      (s rest : Bytes) → obtain_string {N = N} (print_string s rest) ≡ done (string_value s, rest)
  unfolding obtain_string print_string
  obtain_string-print_string s rest =
      string_loop-print_chars s rest [] (suc (length (print_chars s (b'"' ∷ rest)))) (omega arith)

consume-append :
    (valid : ℕ → Bool) (s rest : Bytes)
    → All (λ c. valid c ≡ true) s
    → valid (peek rest) ≡ false
    → consume valid (s ++ rest) ≡ (s, rest)
unfolding consume
consume-append valid [] [] h k = refl
consume-append valid [] (c ∷ rest) h k = rw k
consume-append valid (c ∷ s) rest h k = rw (h.0, consume-append valid s rest h.1 k)

pub obtain_number-print :
    {N : Type 0} (strtof : Bytes → N) (print_number : N → Bytes) (n : N) (rest : Bytes)
    → IsNumber strtof print_number n
    → Stops rest
    → obtain_number strtof (print_number n ++ rest) ≡ (number_value n, rest)
unfolding obtain_number
obtain_number-print strtof print_number n rest h k =
    rw (consume-append valid_number (print_number n) rest h.all_valid k, h.read_back)
