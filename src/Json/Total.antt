-- ===== src/Json/Total.antt =====
-- The parser ends on every text, within its fuel.
use native.Mathlib.Nat.{le_trans}
use gitlstreefs.Base.{
  ℕ, zero, suc, ◌≤◌, ◌<◌, ◌≡◌, ◌⊎◌, inl, inr, refl, Bool, true, false, ◌&&◌, ◌||◌, not, [], ◌∷◌,
  ◌++◌, arith, leb, ◌==◌, if◌then◌else◌, Bool-cases, Option-cases, Bytes, length,
}
use gitlstreefs.Base.Outcome.{Outcome, done, undefined, out_of_fuel, ◌>>=◌}
use gitlstreefs.Json.Value.{
  Value, string_value, true_value, false_value, null_value, Items, nil, Members, end, is_nullptr,
  emplace_back, emplace,
}
use gitlstreefs.Json.Lexer.{
  peek, skip, get, consume, skip_valid, valid_number, skip_whitespace, assert_consume,
  obtain_number, charcode, escaped_byte, escape_unicode, escape, string_loop, obtain_string,
}
use gitlstreefs.Json.Parser.{
  Parsed, key_of, object_loop, obtain_object, array_loop, obtain_array, obtain_value, parse,
}

length-skip_valid : (valid : ℕ → Bool) (s : Bytes) → length (skip_valid valid s) ≤ length s
unfolding skip_valid
length-skip_valid valid [] = omega arith
length-skip_valid valid (c ∷ s) = ground (arith, length-skip_valid valid s)

pub length-skip_whitespace : (s : Bytes) → length (skip_whitespace s) ≤ length s
unfolding skip_whitespace
length-skip_whitespace s = length-skip_valid _ s

length-consume : (valid : ℕ → Bool) (s : Bytes) → length (consume valid s).1 ≤ length s
unfolding consume
length-consume valid [] = omega arith
length-consume valid (c ∷ s) = ground (arith, length-consume valid s)

length-skip : (s : Bytes) → length (skip s).1 ≤ length s
length-skip [] = omega arith
length-skip (c ∷ s) = omega arith

length-get : (s : Bytes) → length (get s).1 ≤ length s
length-get [] = omega arith
length-get (c ∷ s) = omega arith

length-escape_unicode : (rest s : Bytes) → length (escape_unicode rest s).2 ≤ length rest
length-escape_unicode rest s =
    let (b0, r0) = get rest in
    let (b1, r1) = get r0 in
    let (b2, r2) = get r1 in
    let (b3, r3) = get r2 in
    unfold escape_unicode in
    elim (Bool-cases (charcode b0 b1 b2 b3).0) [
      | inl e ↦ rw e (omega (arith, length-get rest, length-get r0, length-get r1, length-get r2))
      | inr e ↦ rw e (omega (arith, length-get rest, length-get r0, length-get r1, length-get r2))
    ]

length-escape : (c : ℕ) (rest s : Bytes) → length (escape c rest s).2 ≤ length rest
unfolding escape
length-escape c rest s = elim (Bool-cases (c == 0x75)) [
  | inl e ↦ rw (e, escape) (length-escape_unicode rest s)
  | inr e ↦
      rw (e, escape)
        (elim (Option-cases (escaped_byte c)) [
          | inl n ↦ rw n (omega arith)
          | inr (b, n) ↦ rw n (omega arith)
        ])
]

length_next :
    (s : Bytes) → length (if peek s == b',' then skip_whitespace (skip s).1 else s) ≤ length s
length_next s = elim (Bool-cases (peek s == b',')) [
  | inl e ↦ rw e (omega (arith, length-skip_whitespace (skip s).1, length-skip s))
  | inr e ↦ rw e (omega arith)
]

module _ {N : Type 0} where
  -- The code returned, with no more text left than it was given.
  abbrev pub Within : Bytes → Parsed N → Type 0
  Within s (done (v, rest)) = length rest ≤ length s
  Within s undefined = Unit
  Within s out_of_fuel = ⊥

  -- The same, and whatever is a value took some text.
  abbrev pub Consumes : Bytes → Parsed N → Type 0
  Consumes s (done (v, rest)) =
      (length rest ≤ length s) × (is_nullptr v ≡ false → length rest < length s)
  Consumes s undefined = Unit
  Consumes s out_of_fuel = ⊥

  Within-bind :
      (s t : Bytes) (m : Parsed N) (f : Value N × Bytes → Parsed N)
      → Within s m
      → ((v : Value N) (r : Bytes) → length r ≤ length s → Within t (f (v, r)))
      → Within t (m >>= f)
  Within-bind s t (done (v, r)) f h k = k v r h
  Within-bind s t undefined f h k = tt
  Within-bind s t out_of_fuel f h k = absurd h

  Consumes-bind :
      (s t : Bytes) (m : Parsed N) (f : Value N × Bytes → Parsed N)
      → Consumes s m
      → ((v : Value N) (r : Bytes)
          → length r ≤ length s
          → (is_nullptr v ≡ false → length r < length s)
          → Within t (f (v, r)))
      → Within t (m >>= f)
  Consumes-bind s t (done (v, r)) f h k = k v r h.0 h.1
  Consumes-bind s t undefined f h k = tt
  Consumes-bind s t out_of_fuel f h k = absurd h

  Within-le : (s t : Bytes) (m : Parsed N) → length s ≤ length t → Within s m → Within t m
  Within-le s t (done (v, r)) h w = omega arith
  Within-le s t undefined h w = tt
  Within-le s t out_of_fuel h w = w

  strictly : (c : ℕ) (t : Bytes) (m : Parsed N) → Within t m → Consumes (c ∷ t) m
  strictly c t (done (v, r)) h = (omega arith, λ _. omega arith)
  strictly c t undefined h = tt
  strictly c t out_of_fuel h = h

  Consumes-if :
      (t : Bytes) (b : Bool) (m n : Parsed N)
      → (b ≡ true → Consumes t m)
      → (b ≡ false → Consumes t n)
      → Consumes t (if b then m else n)
  Consumes-if t true m n h k = h refl
  Consumes-if t false m n h k = k refl

  Within-if :
      (t : Bytes) (b : Bool) (m n : Parsed N)
      → (b ≡ true → Within t m)
      → (b ≡ false → Within t n)
      → Within t (if b then m else n)
  Within-if t true m n h k = h refl
  Within-if t false m n h k = k refl

  Within-key :
      (t : Bytes) (v : Value N) (f : Bytes → Parsed N)
      → ((k : Bytes) → Within t (f k))
      → Within t (key_of v >>= f)
  unfolding key_of
  Within-key t (string_value s) f h = h s
  Within-key t _ f h = tt

  length-assert_consume :
      (made : Value N) (expect s : Bytes) → length (assert_consume made expect s).1 ≤ length s
  unfolding assert_consume
  length-assert_consume made [] s = omega arith
  length-assert_consume made (c ∷ expect) s =
      ground (arith, length-assert_consume made expect (skip s).1, length-skip s)

module _ (N : Type 0) where
  string_loop-Within :
      (fuel : ℕ) (text s : Bytes)
      → length text < fuel
      → Within text (string_loop {N = N} fuel text s)
  unfolding string_loop
  string_loop-Within zero text s h = absurd (omega arith)
  string_loop-Within (suc fuel) [] s h = omega arith
  string_loop-Within (suc fuel) (c ∷ text) s h =
      let (e, behind) = get text in
      let (goes_on, s', rest) = escape e behind s in
      let short : length rest ≤ length text =
        omega (arith, length-escape e behind s, length-get text) in
      Within-if (c ∷ text) (c == b'"') _ _ (λ _. omega arith)
        λ _.
          Within-if (c ∷ text) (c == b'\\') _ _
            (λ _.
              Within-if (c ∷ text) goes_on _ _
                (λ _.
                  Within-le rest (c ∷ text) _ (omega arith)
                    (string_loop-Within fuel rest s' (omega arith)))
                (λ _. omega arith))
            (λ _.
              Within-le text (c ∷ text) _ (omega arith)
                (string_loop-Within fuel text (s ++ c ∷ []) (omega arith)))

  -- A string takes at least the character that is looked at.
  obtain_string-Within : (c : ℕ) (text : Bytes) → Within text (obtain_string {N = N} (c ∷ text))
  unfolding obtain_string
  obtain_string-Within c text =
      Within-if text (not (c == b'"')) _ _ (λ _. omega arith)
        (λ _. string_loop-Within (suc (length text)) text [] (omega arith))

  obtain_string-Consumes : (s : Bytes) → Consumes s (obtain_string {N = N} s)
  obtain_string-Consumes [] = unfold obtain_string in (omega arith, λ e. cc e)
  obtain_string-Consumes (c ∷ text) =
      strictly c text (obtain_string (c ∷ text)) (obtain_string-Within c text)

module _ {N : Type 0} (strtof : Bytes → N) (value : Bytes → Parsed N) (bound : ℕ)
    (value_ends : (s : Bytes) → length s < bound → Consumes s (value s)) where
  array_loop-Within :
      (fuel : ℕ) (s : Bytes) (array : Items N)
      → length s < fuel
      → length s < bound
      → Within s (array_loop strtof value fuel s array)
  unfolding array_loop
  array_loop-Within zero s array h k = absurd (omega arith)
  array_loop-Within (suc fuel) [] array h k = omega arith
  array_loop-Within (suc fuel) (c ∷ t) array h k =
      Within-if (c ∷ t) (c == b']') _ _ (λ _. omega arith)
        λ _. Consumes-bind (c ∷ t) (c ∷ t) (value (c ∷ t)) _ (value_ends (c ∷ t) k) λ v r le lt.
          Within-if (c ∷ t) (is_nullptr v) _ _ (λ _. le)
            λ there.
              let s2 = skip_whitespace r in
              let shorter : length s2 ≤ length t =
                omega (arith, length-skip_whitespace r, lt there) in
              let next = skip_whitespace (skip s2).1 in
              let shorter' : length next ≤ length t =
                omega (arith, length-skip_whitespace (skip s2).1, length-skip s2) in
              Within-if (c ∷ t) (peek s2 == b']') _ _
                (λ _.
                  Within-le s2 (c ∷ t) _ (omega arith)
                    (array_loop-Within fuel s2 (emplace_back array v) (omega arith) (omega arith)))
                λ _.
                  Within-if (c ∷ t) (peek s2 == b',') _ _
                    (λ _. Within-le next (c ∷ t) _ (omega arith) (
                      array_loop-Within fuel next (emplace_back array v) (omega arith)
                        (omega arith)))
                    (λ _. omega arith)

  object_loop-Within :
      (fuel : ℕ) (s : Bytes) (object : Members N)
      → length s < fuel
      → length s ≤ bound
      → Within s (object_loop strtof value fuel s object)
  unfolding object_loop
  object_loop-Within zero s object h k = absurd (omega arith)
  object_loop-Within (suc fuel) [] object h k = omega arith
  object_loop-Within (suc fuel) (c ∷ t) object h k =
      Within-if (c ∷ t) (c == b'}') _ _ (λ _. omega arith)
        λ _.
          Within-bind t (c ∷ t) (obtain_string (c ∷ t)) _ (obtain_string-Within N c t) λ key s1 le.
            let s2 = skip_whitespace s1 in
            let e2 : length (get s2).1 ≤ length t =
              omega (arith, length-skip_whitespace s1, length-get s2) in
            let inner = skip_whitespace (get s2).1 in
            let e3 : length inner ≤ length t = omega (arith, length-skip_whitespace (get s2).1) in
            Within-if (c ∷ t) (not ((get s2).0 == b':')) _ _ (λ _. omega arith)
              λ _.
                Consumes-bind inner (c ∷ t) (value inner) _ (value_ends inner (omega arith))
                  λ v s3 le3 _.
                    let s4 = skip_whitespace s3 in
                    let e4 : length s4 ≤ length t = omega (arith, length-skip_whitespace s3) in
                    Within-key (c ∷ t) key _ λ name.
                      let next = if peek s4 == b',' then skip_whitespace (skip s4).1 else s4 in
                      let e5 : length next ≤ length t = le_trans (length_next s4) e4 in
                      Within-le next (c ∷ t) _ (omega arith) (
                        object_loop-Within fuel next (emplace object name v) (omega arith)
                          (omega arith))

  obtain_array-Consumes : (s : Bytes) → length s ≤ bound → Consumes s (obtain_array strtof value s)
  unfolding obtain_array
  obtain_array-Consumes [] h = (omega arith, λ e. cc e)
  obtain_array-Consumes (c ∷ t) h =
      let inside = skip_whitespace t in
      let shorter = length-skip_whitespace t in
      strictly c t _ (
        Within-if t (not (c == b'[')) _ _ (λ _. omega arith)
          λ _.
            Within-le inside t _ shorter
              (array_loop-Within (suc (length inside)) inside nil (omega arith) (omega arith)))

  obtain_object-Consumes :
      (s : Bytes) → length s ≤ bound → Consumes s (obtain_object strtof value s)
  unfolding obtain_object
  obtain_object-Consumes [] h = (omega arith, λ e. cc e)
  obtain_object-Consumes (c ∷ t) h =
      let inside = skip_whitespace t in
      let shorter = length-skip_whitespace t in
      strictly c t _ (
        Within-if t (not (c == b'{')) _ _ (λ _. omega arith)
          λ _.
            Within-le inside t _ shorter
              (object_loop-Within (suc (length inside)) inside end (omega arith) (omega arith)))

module _ {N : Type 0} where
  assert_consume-Consumes :
      (made : Value N) (x : ℕ) (expect s : Bytes)
      → Consumes s (done (assert_consume made (x ∷ expect) s))
  unfolding assert_consume
  assert_consume-Consumes made x expect [] = ground arith
  assert_consume-Consumes made x expect (c ∷ t) =
      ground (arith, length-assert_consume made expect t)

  obtain_number-Consumes :
      (strtof : Bytes → N) (c : ℕ) (t : Bytes)
      → (c == b'-' || leb b'0' c && leb c b'9' || c == b'+') ≡ true
      → Consumes (c ∷ t) (done (obtain_number strtof (c ∷ t)))
  unfolding obtain_number consume valid_number
  obtain_number-Consumes strtof c t h = ground (arith, length-consume valid_number t)

module _ {N : Type 0} (strtof : Bytes → N) where
  -- With fuel above the length of the text, `ObtainValue` ends, leaves no more text than it was
  -- given, and strictly less where it returns a value.
  pub obtain_value-Consumes :
      (fuel : ℕ) (s : Bytes) → length s < fuel → Consumes s (obtain_value strtof fuel s)
  unfolding obtain_value
  obtain_value-Consumes zero s h = absurd (omega arith)
  obtain_value-Consumes (suc fuel) [] h = (omega arith, λ e. cc e)
  obtain_value-Consumes (suc fuel) (c ∷ t) h =
      let s = c ∷ t in
      let ends = λ (r : Bytes) (k : length r < fuel). obtain_value-Consumes fuel r k in
      Consumes-if s (c == b'f') _ _ (λ _. assert_consume-Consumes false_value _ _ s)
        λ _.
          Consumes-if s (c == b'n') _ _ (λ _. assert_consume-Consumes null_value _ _ s)
            λ _.
              Consumes-if s (c == b't') _ _ (λ _. assert_consume-Consumes true_value _ _ s)
                λ _. Consumes-if s _ _ _ (obtain_number-Consumes strtof c t) λ _.
                  Consumes-if s (c == b'[') _ _
                    (λ _.
                      obtain_array-Consumes strtof (obtain_value strtof fuel) fuel ends s
                        (omega arith))
                    λ _.
                      Consumes-if s (c == b'{') _ _
                        (λ _.
                          obtain_object-Consumes strtof (obtain_value strtof fuel) fuel ends s
                            (omega arith))
                        λ _.
                          Consumes-if s (c == b'"') _ _ (λ _. obtain_string-Consumes N s)
                            (λ _. (omega arith, λ e. cc e))

  value_of :
      (s : Bytes) (m : Parsed N)
      → Consumes s m
      → (let r : Outcome (Value N) = m >>= (λ (v, rest). done v) in
          ((v : Value N) × (r ≡ done v)) ⊎ (r ≡ undefined))
  value_of s (done (v, rest)) h = inl (v, refl)
  value_of s undefined h = inr refl
  value_of s out_of_fuel h = absurd h

  -- `Parse` ends on every text, with a value or a null pointer, or by meeting undefined behaviour:
  -- no loop and no recursion of the parser runs forever.
  pub parse_total :
      (s : Bytes) → ((v : Value N) × (parse strtof s ≡ done v)) ⊎ (parse strtof s ≡ undefined)
  unfolding parse
  parse_total s =
      let text = skip_whitespace s in
      value_of text (obtain_value strtof (suc (length text)) text)
        (obtain_value-Consumes (suc (length text)) text (omega arith))
