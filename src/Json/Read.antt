-- ===== src/Json/Read.antt =====
-- `ObtainValue` and the loops of the JSON parser on the first bytes of a printed value.
use gitlstreefs.Base.{
  ℕ, suc, ◌≤◌, ◌≡◌, refl, sym, ap, ◌∙◌, true, false, ◌&&◌, ◌||◌, ◌∷◌, ◌++◌, arith, leb, ◌==◌,
  if◌then◌else◌, Bytes, codes, length,
}
use gitlstreefs.Base.Outcome.{done}
use gitlstreefs.Json.Value.{
  number_value, string_value, object_value, array_value, true_value, false_value, null_value, Items,
  nil, cons, Members, end, member,
}
use gitlstreefs.Json.Lexer.{
  peek, skip, valid_number, valid_whitespace, skip_whitespace, assert_consume, obtain_number,
}
use gitlstreefs.Json.Parser.{object_loop, array_loop, obtain_value}
use gitlstreefs.Json.Printer.{
  print, print_items, print_more_items, print_members, print_more_members, print_string, IsNumber,
  PrintableItems, Stops,
}
use gitlstreefs.Json.Strings.{skip_whitespace-none, obtain_string-print_string, obtain_number-print}
use gitlstreefs.Json.Steps.{skip-print}

module _ {N : Type 0} (strtof : Bytes → N) (fuel : ℕ) where
  pub read_number :
      (c : ℕ) (t : Bytes)
      → (c == b'-' || leb b'0' c && leb c b'9' || c == b'+') ≡ true
      → obtain_value strtof (suc fuel) (c ∷ t) ≡ done (obtain_number strtof (c ∷ t))
  unfolding obtain_value
  read_number c t h =
      let e1 : (c == b'f') ≡ false = ground arith in
      let e2 : (c == b'n') ≡ false = ground arith in
      let e3 : (c == b't') ≡ false = ground arith in rw (e1, e2, e3, h)

  pub read_string :
      (s rest : Bytes)
      → obtain_value strtof (suc fuel) (print_string s rest) ≡ done (string_value s, rest)
  unfolding obtain_value print_string
  read_string s rest = obtain_string-print_string N s rest

  pub read_true :
      (rest : Bytes)
      → obtain_value strtof (suc fuel) (codes "true" ++ rest) ≡ done (true_value, rest)
  unfolding obtain_value assert_consume
  read_true rest = refl

  pub read_false :
      (rest : Bytes)
      → obtain_value strtof (suc fuel) (codes "false" ++ rest) ≡ done (false_value, rest)
  unfolding obtain_value assert_consume
  read_false rest = refl

  pub read_null :
      (rest : Bytes)
      → obtain_value strtof (suc fuel) (codes "null" ++ rest) ≡ done (null_value, rest)
  unfolding obtain_value assert_consume
  read_null rest = refl

  pub read_array :
      (inside : Bytes)
      → skip_whitespace inside ≡ inside
      → obtain_value strtof (suc fuel) (b'[' ∷ inside)
        ≡ array_loop strtof (obtain_value strtof fuel) (suc (length inside)) inside nil
  unfolding obtain_value
  read_array inside ws = rw ws

  pub read_object :
      (inside : Bytes)
      → skip_whitespace inside ≡ inside
      → obtain_value strtof (suc fuel) (b'{' ∷ inside)
        ≡ object_loop strtof (obtain_value strtof fuel) (suc (length inside)) inside end
  unfolding obtain_value
  read_object inside ws = rw ws

  pub array_end :
      (f : ℕ) (rest : Bytes) (acc : Items N)
      → array_loop strtof (obtain_value strtof fuel) (suc f) (b']' ∷ rest) acc
        ≡ done (array_value acc, rest)
  unfolding array_loop
  array_end f rest acc = refl

  pub object_end :
      (f : ℕ) (rest : Bytes) (acc : Members N)
      → object_loop strtof (obtain_value strtof fuel) (suc f) (b'}' ∷ rest) acc
        ≡ done (object_value acc, rest)
  unfolding object_loop
  object_end f rest acc = refl

module _ {N : Type 0} (strtof : Bytes → N) (print_number : N → Bytes) where
  pub read_printed_number :
      (n : N) (fuel : ℕ) (rest : Bytes)
      → IsNumber strtof print_number n
      → Stops rest
      → obtain_value strtof (suc fuel) (print_number n ++ rest) ≡ done (number_value n, rest)
  read_printed_number n fuel rest p s =
      let e : print_number n ++ rest ≡ p.first ∷ (p.others ++ rest) = rw p.printed in
      ap (obtain_value strtof (suc fuel)) e
      ∙ read_number strtof fuel p.first (p.others ++ rest) p.begins
      ∙ ap (λ t. done (obtain_number strtof t)) (sym e)
      ∙ ap done (obtain_number-print strtof print_number n rest p s)

  pub Stops-more_items :
      (vs : Items N) (rest : Bytes) → Stops (print_more_items strtof print_number vs (b']' ∷ rest))
  unfolding print valid_number
  Stops-more_items nil rest = refl
  Stops-more_items (cons v vs) rest = refl

  pub Stops-more_members :
      (ms : Members N) (rest : Bytes)
      → Stops (print_more_members strtof print_number ms (b'}' ∷ rest))
  unfolding print valid_number
  Stops-more_members end rest = refl
  Stops-more_members (member k v ms) rest = refl

  pub skip-items :
      (vs : Items N) (rest : Bytes)
      → PrintableItems strtof print_number vs
      → skip_whitespace (print_items strtof print_number vs (b']' ∷ rest))
        ≡ print_items strtof print_number vs (b']' ∷ rest)
  unfolding print valid_whitespace
  skip-items nil rest p = skip_whitespace-none b']' rest refl
  skip-items (cons v vs) rest p = skip-print strtof print_number v _ p.0

  pub skip-members :
      (ms : Members N) (rest : Bytes)
      → skip_whitespace (print_members strtof print_number ms (b'}' ∷ rest))
        ≡ print_members strtof print_number ms (b'}' ∷ rest)
  unfolding print print_string valid_whitespace
  skip-members end rest = skip_whitespace-none b'}' rest refl
  skip-members (member k v ms) rest = skip_whitespace-none b'"' _ refl

  pub skip-more_members :
      (ms : Members N) (rest : Bytes)
      → skip_whitespace (print_more_members strtof print_number ms (b'}' ∷ rest))
        ≡ print_more_members strtof print_number ms (b'}' ∷ rest)
  unfolding print valid_whitespace
  skip-more_members end rest = skip_whitespace-none b'}' rest refl
  skip-more_members (member k v ms) rest = skip_whitespace-none b',' _ refl

  pub length-next_member :
      (ms : Members N) (rest : Bytes)
      → length (print_members strtof print_number ms (b'}' ∷ rest))
        ≤ length (print_more_members strtof print_number ms (b'}' ∷ rest))
  unfolding print
  length-next_member end rest = omega arith
  length-next_member (member k v ms) rest = omega arith

  pub next_member :
      (ms : Members N) (rest : Bytes)
      → (let m = print_more_members strtof print_number ms (b'}' ∷ rest) in
          if peek m == b',' then skip_whitespace (skip m).1 else m)
        ≡ print_members strtof print_number ms (b'}' ∷ rest)
  unfolding print
  next_member end rest = refl
  next_member (member k v ms) rest = skip-members (member k v ms) rest
