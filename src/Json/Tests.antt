-- ===== src/Json/Tests.antt =====
-- JSON texts at concrete bytes, with numbers of one digit.
use gitlstreefs.Base.{ℕ, ◌-◌, ◌+◌, ◌≡◌, refl, ◌⊎◌, true, [], ◌∷◌, ◌++◌, Bytes, codes, bytes_eq}
use gitlstreefs.Base.Outcome.{done, undefined}
use gitlstreefs.Json.Value.{
  Value, nullptr, number_value, string_value, object_value, array_value, true_value, nil, cons, end,
  member,
}
use gitlstreefs.Json.Lexer.{
  obtain_string, skip_whitespace, skip_valid, valid_whitespace, valid_number, obtain_number,
  consume, string_loop,
}
use gitlstreefs.Json.Parser.{
  obtain_value, parse, obtain_object, object_loop, obtain_array, array_loop, key_of,
}
use gitlstreefs.Json.Printer.{print, print_string, print_chars, IsNumber, Printable, Stops}
use gitlstreefs.Json.Total.{parse_total}
use gitlstreefs.Json.Strings.{obtain_string-print_string}
use gitlstreefs.Json.RoundTrip.{parse-print}

abbrev digit : Bytes → ℕ
digit [] = 0
digit (c ∷ s) = c - 48

abbrev print_digit : ℕ → Bytes
print_digit n = (n + 48) ∷ []

-- [7, {"a": true}, "q"]
abbrev sample : Value ℕ
sample = array_value (
    cons (number_value 7) (
      cons (object_value (member (codes "a") true_value end))
        (cons (string_value (codes "q")) nil)))

seven-valid : valid_number 55 ≡ true
unfolding valid_number
seven-valid = refl

seven-IsNumber : IsNumber digit print_digit 7
seven-IsNumber = record {
  first = 55;
  others = [];
  printed = refl;
  begins = refl;
  all_valid = (seven-valid, tt);
  read_back = refl;
}

sample-Printable : Printable digit print_digit sample
sample-Printable = (seven-IsNumber, ((refl, tt, tt), (tt, tt)))

sample-print : print digit print_digit sample [] ≡ codes "[7,{\"a\":true},\"q\"]"
unfolding print print_string print_chars
sample-print = refl

sample-Stops : Stops []
unfolding valid_number
sample-Stops = refl

sample-skip :
    skip_whitespace (codes "  " ++ print digit print_digit sample [])
    ≡ print digit print_digit sample []
unfolding skip_whitespace skip_valid valid_whitespace print
sample-skip = refl

parse-print_example : parse digit (codes "  " ++ print digit print_digit sample []) ≡ done sample
parse-print_example =
    parse-print digit print_digit sample (codes "  ") [] sample-Printable sample-Stops sample-skip

parse_total_example :
    ((v : Value ℕ) × (parse digit (codes "{\"k\" 1") ≡ done v))
    ⊎ (parse digit (codes "{\"k\" 1") ≡ undefined)
parse_total_example = parse_total digit (codes "{\"k\" 1")

obtain_string-print_string_example :
    obtain_string {N = ℕ} (print_string (codes "a\"b") (codes ":"))
    ≡ done (string_value (codes "a\"b"), codes ":")
obtain_string-print_string_example = obtain_string-print_string ℕ (codes "a\"b") (codes ":")

parse_number : parse digit (codes " 7 ") ≡ done (number_value 7)
unfolding parse obtain_value obtain_number consume obtain_object object_loop obtain_array array_loop
    obtain_string string_loop key_of skip_whitespace skip_valid valid_whitespace valid_number
    bytes_eq
parse_number = refl

-- A member without a value is taken as a member with a null pointer.
parse_missing_value :
    parse digit (codes "{\"k\":}") ≡ done (object_value (member (codes "k") nullptr end))
unfolding parse obtain_value obtain_number consume obtain_object object_loop obtain_array array_loop
    obtain_string string_loop key_of skip_whitespace skip_valid valid_whitespace valid_number
    bytes_eq
parse_missing_value = refl

-- A key that is no string is dereferenced as one.
parse_key_not_string : parse digit (codes "{k\":1}") ≡ done nullptr
unfolding parse obtain_value obtain_number consume obtain_object object_loop obtain_array array_loop
    obtain_string string_loop key_of skip_whitespace skip_valid valid_whitespace valid_number
    bytes_eq
parse_key_not_string = refl

parse_key_missing : parse digit (codes "{x:1}") ≡ undefined
unfolding parse obtain_value obtain_number consume obtain_object object_loop obtain_array array_loop
    obtain_string string_loop key_of skip_whitespace skip_valid valid_whitespace valid_number
    bytes_eq
parse_key_missing = refl

-- After the report of a missing comma the members that follow are read.
parse_missing_comma :
    parse digit (codes "{\"a\":1\"b\":2}")
    ≡ done (
        object_value
          (member (codes "a") (number_value 1) (member (codes "b") (number_value 2) end)))
unfolding parse obtain_value obtain_number consume obtain_object object_loop obtain_array array_loop
    obtain_string string_loop key_of skip_whitespace skip_valid valid_whitespace valid_number
    bytes_eq
parse_missing_comma = refl

-- The text behind the value is not looked at.
parse_trailing : parse digit (codes "7]") ≡ done (number_value 7)
unfolding parse obtain_value obtain_number consume obtain_object object_loop obtain_array array_loop
    obtain_string string_loop key_of skip_whitespace skip_valid valid_whitespace valid_number
    bytes_eq
parse_trailing = refl
