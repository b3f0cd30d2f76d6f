-- ===== src/Json/RoundTrip.antt =====
-- Parsing what is printed gives the value back.
use gitlstreefs.Base.{
  ℕ, zero, suc, ◌<◌, ◌≡◌, refl, ap, ◌∙◌, ◌∷◌, ◌++◌, arith, Bytes, bytes_eq_refl, length,
}
use gitlstreefs.Base.Outcome.{done}
use gitlstreefs.Json.Value.{
  Value, nullptr, number_value, string_value, object_value, array_value, true_value, false_value,
  null_value, Items, nil, cons, Members, end, member, add_member, emplace_back,
}
use gitlstreefs.Json.Lexer.{skip_whitespace}
use gitlstreefs.Json.Parser.{Parsed, object_loop, array_loop, obtain_value, parse}
use gitlstreefs.Json.Printer.{
  print, print_items, print_members, print_more_members, Printable, PrintableItems,
  PrintableMembers, Stops,
}
use gitlstreefs.Json.Steps.{
  array_step_last, array_step_more, object_step, print-starts, print-not_nullptr, skip-print,
  length-print, length-print_string,
}
use gitlstreefs.Json.Join.{
  append_items, append_items-emplace_back, append_items-nil, append_members,
  append_members-add_member, append_members-end, Apart, Apart-add_member,
}
use gitlstreefs.Json.Read.{
  read_string, read_true, read_false, read_null, read_array, read_object, array_end, object_end,
  read_printed_number, Stops-more_items, Stops-more_members, skip-items, skip-members,
  skip-more_members, length-next_member, next_member,
}

module _ {N : Type 0} (strtof : Bytes → N) (print_number : N → Bytes) where
  array_last :
      (value : Bytes → Parsed N) (f : ℕ) (v : Value N) (rest r : Bytes) (acc : Items N)
      → Printable strtof print_number v
      → value (print strtof print_number v rest) ≡ done (v, b']' ∷ r)
      → array_loop strtof value (suc f) (print strtof print_number v rest) acc
        ≡ array_loop strtof value f (b']' ∷ r) (emplace_back acc v)
  array_last value f v rest r acc p run =
      let (c, t, e, starts) = print-starts strtof print_number v rest p in
      rw e (
        array_step_last strtof value f c t acc v r starts.1
          (print-not_nullptr strtof print_number v p) (rw e at run))

  array_more :
      (value : Bytes → Parsed N) (f : ℕ) (v : Value N) (rest r : Bytes) (acc : Items N)
      → Printable strtof print_number v
      → value (print strtof print_number v rest) ≡ done (v, b',' ∷ r)
      → skip_whitespace r ≡ r
      → array_loop strtof value (suc f) (print strtof print_number v rest) acc
        ≡ array_loop strtof value f r (emplace_back acc v)
  array_more value f v rest r acc p run ws =
      let (c, t, e, starts) = print-starts strtof print_number v rest p in
      rw e (
        array_step_more strtof value f c t acc v r starts.1
          (print-not_nullptr strtof print_number v p) (rw e at run) ws)

  mutual
    unfolding print append_items append_members

    value_trip :
        (v : Value N) (fuel : ℕ) (rest : Bytes)
        → Printable strtof print_number v
        → Stops rest
        → length (print strtof print_number v rest) < fuel
        → obtain_value strtof fuel (print strtof print_number v rest) ≡ done (v, rest)
    value_trip v zero rest p s h = absurd (omega arith)
    value_trip nullptr (suc fuel) rest p s h = absurd p
    value_trip (number_value n) (suc fuel) rest p s h =
        read_printed_number strtof print_number n fuel rest p s
    value_trip (string_value t) (suc fuel) rest p s h = read_string strtof fuel t rest
    value_trip (object_value ms) (suc fuel) rest p s h =
        read_object strtof fuel _ (skip-members strtof print_number ms rest)
        ∙ members_trip ms _ fuel rest end p (λ j w e. refl) (omega arith) (omega arith)
    value_trip (array_value vs) (suc fuel) rest p s h =
        read_array strtof fuel _ (skip-items strtof print_number vs rest p)
        ∙ items_trip vs _ fuel rest nil p (omega arith) (omega arith)
    value_trip true_value (suc fuel) rest p s h = read_true strtof fuel rest
    value_trip false_value (suc fuel) rest p s h = read_false strtof fuel rest
    value_trip null_value (suc fuel) rest p s h = read_null strtof fuel rest

    items_trip :
        (vs : Items N) (f fuel : ℕ) (rest : Bytes) (acc : Items N)
        → PrintableItems strtof print_number vs
        → length (print_items strtof print_number vs (b']' ∷ rest)) < f
        → length (print_items strtof print_number vs (b']' ∷ rest)) < fuel
        → array_loop strtof
            (obtain_value strtof fuel)
            f
            (print_items strtof print_number vs (b']' ∷ rest))
            acc
          ≡ done (array_value (append_items acc vs), rest)
    items_trip vs zero fuel rest acc p h k = absurd (omega arith)
    items_trip nil (suc f) fuel rest acc p h k =
        array_end strtof fuel f rest acc ∙ rw append_items-nil
    items_trip (cons v nil) (suc f) fuel rest acc p h k =
        let shorter = length-print strtof print_number v (b']' ∷ rest) p.0 in
        array_last (obtain_value strtof fuel) f v (b']' ∷ rest) rest acc p.0
          (value_trip v fuel (b']' ∷ rest) p.0 (Stops-more_items strtof print_number nil rest) k)
        ∙ items_trip nil f fuel rest (emplace_back acc v) tt (omega arith) (omega arith)
        ∙ rw (append_items-emplace_back acc v nil)
    items_trip (cons v (cons w ws)) (suc f) fuel rest acc p h k =
        let r = print_items strtof print_number (cons w ws) (b']' ∷ rest) in
        let shorter = length-print strtof print_number v (b',' ∷ r) p.0 in
        array_more (obtain_value strtof fuel) f v (b',' ∷ r) r acc p.0
          (value_trip v fuel (b',' ∷ r) p.0 (Stops-more_items strtof print_number (cons w ws) rest)
            k)
          (skip-items strtof print_number (cons w ws) rest p.1)
        ∙ items_trip (cons w ws) f fuel rest (emplace_back acc v) p.1 (omega arith) (omega arith)
        ∙ rw (append_items-emplace_back acc v (cons w ws))

    members_trip :
        (ms : Members N) (f fuel : ℕ) (rest : Bytes) (acc : Members N)
        → PrintableMembers strtof print_number ms
        → Apart acc ms
        → length (print_members strtof print_number ms (b'}' ∷ rest)) < f
        → length (print_members strtof print_number ms (b'}' ∷ rest)) < fuel
        → object_loop strtof
            (obtain_value strtof fuel)
            f
            (print_members strtof print_number ms (b'}' ∷ rest))
            acc
          ≡ done (object_value (append_members acc ms), rest)
    members_trip ms zero fuel rest acc p a h k = absurd (omega arith)
    members_trip end (suc f) fuel rest acc p a h k =
        object_end strtof fuel f rest acc ∙ rw append_members-end
    members_trip (member key v ms) (suc f) fuel rest acc p a h k =
        let m = print_more_members strtof print_number ms (b'}' ∷ rest) in
        let t = print strtof print_number v m in
        let b1 = length-print_string key (b':' ∷ t) in
        let b2 = length-print strtof print_number v m p.1 in
        let next = next_member strtof print_number ms rest in
        object_step strtof (obtain_value strtof fuel) f key t acc v m
          (skip-print strtof print_number v m p.1) (a key v (rw (bytes_eq_refl key)))
          (value_trip v fuel m p.1 (Stops-more_members strtof print_number ms rest) (omega arith))
          (skip-more_members strtof print_number ms rest)
        ∙ ap (λ s. object_loop strtof (obtain_value strtof fuel) f s (add_member key v acc)) next
        ∙ members_trip ms f fuel rest (add_member key v acc) p.2
            (Apart-add_member acc key v ms p.0 a)
            (omega (arith, length-next_member strtof print_number ms rest))
            (omega (arith, length-next_member strtof print_number ms rest))
        ∙ ap (λ o. done (object_value o, rest)) (append_members-add_member acc key v ms)

  -- Where no pointer of a value is null, no object has one key twice, and each number is printed in
  -- the characters of a number and read back by `strtof`, parsing the printed value gives the value
  -- again, whatever white space stands before it and whatever text behind it that does not begin
  -- with a character of a number.
  pub parse-print :
      (v : Value N) (space rest : Bytes)
      → Printable strtof print_number v
      → Stops rest
      → skip_whitespace (space ++ print strtof print_number v rest)
        ≡ print strtof print_number v rest
      → parse strtof (space ++ print strtof print_number v rest) ≡ done v
  unfolding parse
  parse-print v space rest p s ws =
      rw ws
        (rw (value_trip v (suc (length (print strtof print_number v rest))) rest p s (omega arith)))
