-- ===== src/Json/Steps.antt =====
-- One round of each loop of the parser on printed text, and the first characters and lengths of it.
use gitlstreefs.Base.{
  ℕ, suc, ◌≤◌, ◌<◌, ◌≡◌, refl, true, false, ◌&&◌, ◌||◌, none, [], ◌∷◌, ◌++◌, arith, leb, ◌==◌,
  if◌then◌else◌, Bytes, length, length-append,
}
use gitlstreefs.Base.Outcome.{done}
use gitlstreefs.Json.Value.{
  Value, nullptr, number_value, string_value, object_value, array_value, true_value, false_value,
  null_value, Items, nil, cons, Members, end, member, find_member, add_member, is_nullptr,
  emplace_back, emplace,
}
use gitlstreefs.Json.Lexer.{peek, skip, valid_whitespace, skip_whitespace}
use gitlstreefs.Json.Parser.{Parsed, object_loop, array_loop}
use gitlstreefs.Json.Printer.{
  print, print_items, print_more_items, print_members, print_more_members, print_string,
  print_chars, Printable, PrintableItems, PrintableMembers,
}
use gitlstreefs.Json.Strings.{skip_whitespace-none, obtain_string-print_string}

-- The first character of a printed value: no white space and no closing bracket.
abbrev pub IsStarter : ℕ → Type 0
IsStarter c = (valid_whitespace c ≡ false) × ((c == b']') ≡ false)

pub number-IsStarter :
    (c : ℕ) → (c == b'-' || leb b'0' c && leb c b'9' || c == b'+') ≡ true → IsStarter c
unfolding valid_whitespace
number-IsStarter c h = ground arith

module _ {N : Type 0} (strtof : Bytes → N) (value : Bytes → Parsed N) where
  pub array_step_last :
      (fuel c : ℕ) (t : Bytes) (array : Items N) (v : Value N) (r : Bytes)
      → (c == b']') ≡ false
      → is_nullptr v ≡ false
      → value (c ∷ t) ≡ done (v, b']' ∷ r)
      → array_loop strtof value (suc fuel) (c ∷ t) array
        ≡ array_loop strtof value fuel (b']' ∷ r) (emplace_back array v)
  unfolding array_loop skip_whitespace
  array_step_last fuel c t array v r e n run = rw (e, run, n)

  pub array_step_more :
      (fuel c : ℕ) (t : Bytes) (array : Items N) (v : Value N) (r : Bytes)
      → (c == b']') ≡ false
      → is_nullptr v ≡ false
      → value (c ∷ t) ≡ done (v, b',' ∷ r)
      → skip_whitespace r ≡ r
      → array_loop strtof value (suc fuel) (c ∷ t) array
        ≡ array_loop strtof value fuel r (emplace_back array v)
  unfolding array_loop
  array_step_more fuel c t array v r e n run ws =
      rw (e, run, n, skip_whitespace-none b',' r (unfold valid_whitespace in refl), ws)

  emplace-new :
      (k : Bytes) (v : Value N) (object : Members N)
      → find_member k object ≡ none
      → emplace object k v ≡ add_member k v object
  emplace-new k v object new = rw (new, emplace)

  pub object_step :
      (fuel : ℕ) (k t : Bytes) (object : Members N) (v : Value N) (r : Bytes)
      → skip_whitespace t ≡ t
      → find_member k object ≡ none
      → value t ≡ done (v, r)
      → skip_whitespace r ≡ r
      → object_loop strtof value (suc fuel) (print_string k (b':' ∷ t)) object
        ≡ object_loop strtof value fuel
            (if peek r == b',' then skip_whitespace (skip r).1 else r)
            (add_member k v object)
  unfolding object_loop print_string
  object_step fuel k t object v r wt new run wr =
      let colon = skip_whitespace-none b':' t (unfold valid_whitespace in refl) in
      rw (obtain_string-print_string N k (b':' ∷ t), colon, wt, run, wr)
        (rw (emplace-new k v object new))

module _ {N : Type 0} (strtof : Bytes → N) (print_number : N → Bytes) where
  pub print-starts :
      (v : Value N) (rest : Bytes)
      → Printable strtof print_number v
      → (c : ℕ) × (t : Bytes) × (print strtof print_number v rest ≡ c ∷ t) × IsStarter c
  unfolding print valid_whitespace
  print-starts nullptr rest p = absurd p
  print-starts (number_value n) rest p =
      (p.first, p.others ++ rest, rw p.printed, number-IsStarter p.first p.begins)
  print-starts (string_value s) rest p = (_, _, refl, (refl, refl))
  print-starts (object_value ms) rest p = (_, _, refl, (refl, refl))
  print-starts (array_value vs) rest p = (_, _, refl, (refl, refl))
  print-starts true_value rest p = (_, _, refl, (refl, refl))
  print-starts false_value rest p = (_, _, refl, (refl, refl))
  print-starts null_value rest p = (_, _, refl, (refl, refl))

  pub print-not_nullptr : (v : Value N) → Printable strtof print_number v → is_nullptr v ≡ false
  print-not_nullptr nullptr p = absurd p
  print-not_nullptr _ p = refl

  pub skip-print :
      (v : Value N) (rest : Bytes)
      → Printable strtof print_number v
      → skip_whitespace (print strtof print_number v rest) ≡ print strtof print_number v rest
  skip-print v rest p =
      let (c, t, e, s) = print-starts v rest p in rw e (skip_whitespace-none c t s.0)

length-print_chars : (s rest : Bytes) → length rest ≤ length (print_chars s rest)
unfolding print_chars
length-print_chars [] rest = omega arith
length-print_chars (c ∷ s) rest = ground (arith, length-print_chars s rest)

pub length-print_string : (s rest : Bytes) → length rest < length (print_string s rest)
unfolding print_string
length-print_string s rest = omega (arith, length-print_chars s (b'"' ∷ rest))

module _ {N : Type 0} (strtof : Bytes → N) (print_number : N → Bytes) where
  mutual
    unfolding print

    pub length-print :
        (v : Value N) (rest : Bytes)
        → Printable strtof print_number v
        → length rest < length (print strtof print_number v rest)
    length-print nullptr rest p = absurd p
    length-print (number_value n) rest p = rw p.printed (omega (arith, length-append p.others rest))
    length-print (string_value s) rest p = length-print_string s rest
    length-print (object_value ms) rest p = omega (arith, length-print_members ms (b'}' ∷ rest) p)
    length-print (array_value vs) rest p = omega (arith, length-print_items vs (b']' ∷ rest) p)
    length-print true_value rest p = omega arith
    length-print false_value rest p = omega arith
    length-print null_value rest p = omega arith

    pub length-print_items :
        (vs : Items N) (rest : Bytes)
        → PrintableItems strtof print_number vs
        → length rest ≤ length (print_items strtof print_number vs rest)
    length-print_items nil rest p = omega arith
    length-print_items (cons v vs) rest p = omega (
      arith,
      length-print v (print_more_items strtof print_number vs rest) p.0,
      length-print_more_items vs rest p.1,
    )

    pub length-print_more_items :
        (vs : Items N) (rest : Bytes)
        → PrintableItems strtof print_number vs
        → length rest ≤ length (print_more_items strtof print_number vs rest)
    length-print_more_items nil rest p = omega arith
    length-print_more_items (cons v vs) rest p = omega (
      arith,
      length-print v (print_more_items strtof print_number vs rest) p.0,
      length-print_more_items vs rest p.1,
    )

    pub length-print_members :
        (ms : Members N) (rest : Bytes)
        → PrintableMembers strtof print_number ms
        → length rest ≤ length (print_members strtof print_number ms rest)
    length-print_members end rest p = omega arith
    length-print_members (member k v ms) rest p =
        let t = print_more_members strtof print_number ms rest in
        omega (
          arith,
          length-print_string k (b':' ∷ print strtof print_number v t),
          length-print v t p.1,
          length-print_more_members ms rest p.2,
        )

    pub length-print_more_members :
        (ms : Members N) (rest : Bytes)
        → PrintableMembers strtof print_number ms
        → length rest ≤ length (print_more_members strtof print_number ms rest)
    length-print_more_members end rest p = omega arith
    length-print_more_members (member k v ms) rest p =
        let t = print_more_members strtof print_number ms rest in
        omega (
          arith,
          length-print_string k (b':' ∷ print strtof print_number v t),
          length-print v t p.1,
          length-print_more_members ms rest p.2,
        )
