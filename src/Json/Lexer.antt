-- ===== src/Json/Lexer.antt =====
-- The character level of `Parser` in jsonparser.cc. The text and the position are one list: what is
-- left of the text.
use gitlstreefs.Base.{
  ℕ, zero, suc, Bool, true, false, ◌&&◌, ◌||◌, not, Option, none, some, [], ◌∷◌, ◌++◌, ltb, leb,
  ◌==◌, if◌then◌else◌, Bytes, length, strtol,
}
use gitlstreefs.Base.Outcome.{Outcome, done, out_of_fuel}
use gitlstreefs.Json.Value.{Value, nullptr, number_value, string_value}

abbrev pub peek : Bytes → ℕ
peek [] = 0
peek (c ∷ s) = c

-- Whether there was a character to skip, and the text behind it.
abbrev pub skip : Bytes → Bool × Bytes
skip [] = (false, [])
skip (c ∷ s) = (true, s)

abbrev pub get : Bytes → ℕ × Bytes
get [] = (0, [])
get (c ∷ s) = (c, s)

abbrev pub eof : Bytes → Bool
eof [] = true
eof (c ∷ s) = false

-- `Consume(valid)`: the longest run of valid characters, and the rest. At the end of the text
-- `Peek` is 0, which no set holds.
unfoldable pub consume : (ℕ → Bool) → Bytes → Bytes × Bytes
consume valid [] = ([], [])
consume valid (c ∷ s) =
    let (run, rest) = consume valid s in if valid c then (c ∷ run, rest) else ([], c ∷ s)

unfoldable pub skip_valid : (ℕ → Bool) → Bytes → Bytes
skip_valid valid [] = []
skip_valid valid (c ∷ s) = if valid c then skip_valid valid s else c ∷ s

unfoldable pub valid_whitespace : ℕ → Bool
valid_whitespace c = c == 0x20 || c == 0x09 || c == 0x0a || c == 0x0d

unfoldable pub valid_number : ℕ → Bool
valid_number c = c == b'-' || c == b'+' || leb b'0' c && leb c b'9' || c == b'.' || c == b'E'

unfoldable pub skip_whitespace : Bytes → Bytes
unfolding skip_valid valid_whitespace
skip_whitespace = skip_valid valid_whitespace

-- `AssertConsume<T>(expect)`, with the value that it makes.
unfoldable pub assert_consume : {N : Type 0} → Value N → Bytes → Bytes → Value N × Bytes
assert_consume made [] s = (made, s)
assert_consume made (c ∷ expect) s =
    let (skipped, rest) = skip s in
    let go = assert_consume made expect rest in
    if not (c == peek s) then (nullptr, s) else if not skipped then (nullptr, s) else go

-- `ObtainNumber`, over the C library's `strtof`.
unfoldable pub obtain_number : {N : Type 0} → (Bytes → N) → Bytes → Value N × Bytes
unfolding consume valid_number
obtain_number strtof s =
    let (number, rest) = consume valid_number s in (number_value (strtof number), rest)

-- `strtol(buf, nullptr, 16)` on four characters, if it lies in [0, 256).
unfoldable pub charcode : ℕ → ℕ → ℕ → ℕ → Bool × ℕ
charcode a b c d =
    let (negative, n) = strtol (a ∷ b ∷ c ∷ d ∷ 0 ∷ []) 16 in
    (ltb n 256 && (not negative || n == 0), n)

-- The cases of the `switch` behind a backslash that append one byte.
unfoldable pub escaped_byte : ℕ → Option ℕ
escaped_byte c =
    if c == 0x22 || c == 0x5c || c == 0x2f
    then some c
    else if c == 0x62
    then some 0x8
    else if c == 0x66
    then some 0xc
    else if c == 0x6e
    then some 0xa
    else if c == 0x72
    then some 0xd
    else if c == 0x74
    then some 0x9
    else none

-- `case 0x75`: four characters are got. The loop goes on with a longer string, or gives up (`false`).
unfoldable pub escape_unicode : Bytes → Bytes → Bool × Bytes × Bytes
unfolding charcode
escape_unicode rest s =
    let (b0, r0) = get rest in
    let (b1, r1) = get r0 in
    let (b2, r2) = get r1 in
    let (b3, r3) = get r2 in
    let (fits, n) = charcode b0 b1 b2 b3 in if fits then (true, s ++ n ∷ [], r3) else (false, s, r3)

-- The whole `switch`; an unknown escape appends nothing.
unfoldable pub escape : ℕ → Bytes → Bytes → Bool × Bytes × Bytes
unfolding escaped_byte escape_unicode
escape c rest s =
    if c == 0x75
    then escape_unicode rest s
    else elim (escaped_byte c) [ some b ↦ (true, s ++ b ∷ [], rest) | none ↦ (true, s, rest) ]

-- The loop of `ObtainString`.
unfoldable pub string_loop : {N : Type 0} → ℕ → Bytes → Bytes → Outcome (Value N × Bytes)
unfolding escape
string_loop zero text s = out_of_fuel
string_loop (suc fuel) [] s = done (nullptr, [])
string_loop (suc fuel) (c ∷ text) s =
    let (e, behind) = get text in
    let (goes_on, s', rest) = escape e behind s in
    let escaped = string_loop fuel rest s' in
    let plain = string_loop fuel text (s ++ c ∷ []) in
    if c == b'"'
    then done (string_value s, text)
    else if c == b'\\'
    then (if goes_on then escaped else done (nullptr, rest))
    else plain

-- A null pointer for what is no string.
unfoldable pub obtain_string : {N : Type 0} → Bytes → Outcome (Value N × Bytes)
unfolding string_loop
obtain_string text =
    let (c, rest) = get text in
    if not (c == b'"') then done (nullptr, rest) else string_loop (suc (length rest)) rest []
