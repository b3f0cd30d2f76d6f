-- ===== src/Json/Parser.antt =====
-- The recursive part of `Parser` in jsonparser.cc, and `Parse`.
use gitlstreefs.Base.{ℕ, zero, suc, ◌&&◌, ◌||◌, not, leb, ◌==◌, if◌then◌else◌, Bytes, codes, length}
use gitlstreefs.Base.Outcome.{Outcome, done, undefined, out_of_fuel, ◌>>=◌}
use gitlstreefs.Json.Value.{
  Value, nullptr, string_value, object_value, array_value, true_value, false_value, null_value,
  Items, nil, Members, end, is_nullptr, emplace_back, emplace,
}
use gitlstreefs.Json.Lexer.{
  peek, skip, get, eof, skip_whitespace, assert_consume, obtain_number, obtain_string,
}

abbrev pub Parsed : Type 0 → Type 0
Parsed N = Outcome (Value N × Bytes)

-- `dynamic_cast<StringValue*>(key.get())->value_`.
unfoldable pub key_of : {N : Type 0} → Value N → Outcome Bytes
key_of (string_value s) = done s
key_of _ = undefined

module _ {N : Type 0} (strtof : Bytes → N) where
  -- The loop of `ObtainObject`; `value` is `ObtainValue`. An error after a member is reported, and
  -- the loop goes on.
  unfoldable pub object_loop : (Bytes → Parsed N) → ℕ → Bytes → Members N → Parsed N
  unfolding key_of
  object_loop value zero s object = out_of_fuel
  object_loop value (suc fuel) s object =
      let round : Parsed N = do
        (key, s1) ← obtain_string {N = N} s
        let (colon, s2) = get (skip_whitespace s1)
        if not (colon == b':') then done (nullptr, s2) else do
          (v, s3) ← value (skip_whitespace s2)
          let s4 = skip_whitespace s3
          k ← key_of key
          let object' = emplace object k v
          object_loop value fuel (if peek s4 == b',' then skip_whitespace (skip s4).1 else s4)
              object'
      in if eof s
        then done (nullptr, s)
        else if peek s == b'}'
        then done (object_value object, (skip s).1)
        else round

  unfoldable pub obtain_object : (Bytes → Parsed N) → Bytes → Parsed N
  unfolding object_loop
  obtain_object value s =
      let (c, rest) = get s in
      let inside = skip_whitespace rest in
      if not (c == b'{')
      then done (nullptr, rest)
      else object_loop value (suc (length inside)) inside end

  -- The loop of `ObtainArray`.
  unfoldable pub array_loop : (Bytes → Parsed N) → ℕ → Bytes → Items N → Parsed N
  array_loop value zero s array = out_of_fuel
  array_loop value (suc fuel) s array =
      let round : Parsed N = do
        (v, s1) ← value s
        let s2 = skip_whitespace s1
        let array' = emplace_back array v
        let again = array_loop value fuel s2 array'
        let next = array_loop value fuel (skip_whitespace (skip s2).1) array'
        let after : Parsed N =
            if peek s2 == b']' then again else if peek s2 == b',' then next else done (nullptr, s2)
        if is_nullptr v then done (nullptr, s1) else after
      in if eof s
        then done (nullptr, s)
        else if peek s == b']'
        then done (array_value array, (skip s).1)
        else round

  unfoldable pub obtain_array : (Bytes → Parsed N) → Bytes → Parsed N
  unfolding array_loop
  obtain_array value s =
      let (c, rest) = get s in
      let inside = skip_whitespace rest in
      if not (c == b'[')
      then done (nullptr, rest)
      else array_loop value (suc (length inside)) inside nil

  -- `ObtainValue`; the fuel bounds the nesting.
  unfoldable pub obtain_value : ℕ → Bytes → Parsed N
  unfolding obtain_array obtain_object
  obtain_value zero s = out_of_fuel
  obtain_value (suc fuel) s =
      let c = peek s in
      let value = obtain_value fuel in
      if c == b'f'
      then done (assert_consume false_value (codes "false") s)
      else if c == b'n'
      then done (assert_consume null_value (codes "null") s)
      else if c == b't'
      then done (assert_consume true_value (codes "true") s)
      else if c == b'-' || leb b'0' c && leb c b'9' || c == b'+'
      then done (obtain_number strtof s)
      else if c == b'['
      then obtain_array value s
      else if c == b'{'
      then obtain_object value s
      else if c == b'"'
      then obtain_string s
      else done (nullptr, s)

  -- `Parse`, with `ParseJsonText`. The text behind the value is not looked at.
  unfoldable pub parse : Bytes → Outcome (Value N)
  parse s = do
    let text = skip_whitespace s
    (v, rest) ← obtain_value (suc (length text)) text
    done v
