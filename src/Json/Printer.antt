-- ===== src/Json/Printer.antt =====
-- A printer for JSON values, as the description of the texts that the parser is to read back. The
-- text that is to follow is an argument.
use gitlstreefs.Base.{
  ℕ, ◌≡◌, true, false, ◌&&◌, ◌||◌, none, [], ◌∷◌, ◌++◌, leb, ◌==◌, if◌then◌else◌, Bytes, codes, All,
}
use gitlstreefs.Json.Value.{
  Value, nullptr, number_value, string_value, object_value, array_value, true_value, false_value,
  null_value, Items, nil, cons, Members, end, member, find_member,
}
use gitlstreefs.Json.Lexer.{valid_number, peek}

-- Quotes and backslashes are escaped.
unfoldable pub print_chars : Bytes → Bytes → Bytes
print_chars [] rest = rest
print_chars (c ∷ s) rest =
    let more = print_chars s rest in if c == b'"' || c == b'\\' then b'\\' ∷ c ∷ more else c ∷ more

unfoldable pub print_string : Bytes → Bytes → Bytes
unfolding print_chars
print_string s rest = b'"' ∷ print_chars s (b'"' ∷ rest)

module _ {N : Type 0} (strtof : Bytes → N) (print_number : N → Bytes) where
  unfoldable mutual
    unfolding print_string

    pub print : Value N → Bytes → Bytes
    print nullptr rest = rest
    print (number_value n) rest = print_number n ++ rest
    print (string_value s) rest = print_string s rest
    print (object_value ms) rest = b'{' ∷ print_members ms (b'}' ∷ rest)
    print (array_value vs) rest = b'[' ∷ print_items vs (b']' ∷ rest)
    print true_value rest = codes "true" ++ rest
    print false_value rest = codes "false" ++ rest
    print null_value rest = codes "null" ++ rest

    pub print_items : Items N → Bytes → Bytes
    print_items nil rest = rest
    print_items (cons v vs) rest = print v (print_more_items vs rest)

    pub print_more_items : Items N → Bytes → Bytes
    print_more_items nil rest = rest
    print_more_items (cons v vs) rest = b',' ∷ print v (print_more_items vs rest)

    pub print_members : Members N → Bytes → Bytes
    print_members end rest = rest
    print_members (member k v ms) rest =
        print_string k (b':' ∷ print v (print_more_members ms rest))

    pub print_more_members : Members N → Bytes → Bytes
    print_more_members end rest = rest
    print_more_members (member k v ms) rest =
        b',' ∷ print_string k (b':' ∷ print v (print_more_members ms rest))

  -- `strtof` reads back what is printed for a number, which is made of the characters that the
  -- parser takes for a number and begins with a digit or a sign.
  pub record IsNumber (n : N) : Type 0 where
    pub first : ℕ
    pub others : Bytes
    pub printed : print_number n ≡ first ∷ others
    pub begins : (first == b'-' || leb b'0' first && leb first b'9' || first == b'+') ≡ true
    pub all_valid : All (λ c. valid_number c ≡ true) (print_number n)
    pub read_back : strtof (print_number n) ≡ n

  -- No null pointers, no object with one key twice, and numbers that can be read back.
  abbrev mutual
    pub Printable : Value N → Type 0
    Printable nullptr = ⊥
    Printable (number_value n) = IsNumber n
    Printable (string_value s) = Unit
    Printable (object_value ms) = PrintableMembers ms
    Printable (array_value vs) = PrintableItems vs
    Printable true_value = Unit
    Printable false_value = Unit
    Printable null_value = Unit

    pub PrintableItems : Items N → Type 0
    PrintableItems nil = Unit
    PrintableItems (cons v vs) = Printable v × PrintableItems vs

    pub PrintableMembers : Members N → Type 0
    PrintableMembers end = Unit
    PrintableMembers (member k v ms) = (find_member k ms ≡ none) × Printable v × PrintableMembers ms

-- What follows is not taken for more of a number.
abbrev pub Stops : Bytes → Type 0
Stops rest = valid_number (peek rest) ≡ false
