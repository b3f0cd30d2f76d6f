-- ===== src/Json/Value.antt =====
-- `jjson::Value`, its subclasses and its accessors.
use gitlstreefs.Base.{
  ℕ, zero, suc, Bool, true, false, Option, none, some, if◌then◌else◌, Bytes, bytes_eq,
}

-- `std::unique_ptr<Value>`: a null pointer or an object of one of the subclasses. `N` is `float`.
-- The members of an object stand in the order in which they were added.
mutual
  pub data Value (N : Type 0) : Type 0 where
    nullptr : Value N
    number_value : N → Value N
    string_value : Bytes → Value N
    object_value : Members N → Value N
    array_value : Items N → Value N
    true_value false_value null_value : Value N

  pub data Items (N : Type 0) : Type 0 where
    nil : Items N
    cons : Value N → Items N → Items N

  pub data Members (N : Type 0) : Type 0 where
    end : Members N
    member : Bytes → Value N → Members N → Members N

module _ {N : Type 0} where
  abbrev pub is_nullptr : Value N → Bool
  is_nullptr nullptr = true
  is_nullptr _ = false

  -- `array.emplace_back(value)`.
  abbrev pub emplace_back : Items N → Value N → Items N
  emplace_back nil v = cons v nil
  emplace_back (cons w vs) v = cons w (emplace_back vs v)

  abbrev pub find_member : Bytes → Members N → Option (Value N)
  find_member k end = none
  find_member k (member j v ms) = if bytes_eq j k then some v else find_member k ms

  abbrev pub add_member : Bytes → Value N → Members N → Members N
  add_member k v end = member k v end
  add_member k v (member j w ms) = member j w (add_member k v ms)

  -- `object.emplace(key, value)`: a key that is there keeps its value.
  abbrev pub emplace : Members N → Bytes → Value N → Members N
  emplace ms k v = elim (find_member k ms) [ none ↦ add_member k v ms | some w ↦ ms ]

  -- The accessors; `none` is a failed assertion, or undefined behaviour where there is none.
  unfoldable pub get : Value N → Bytes → Option (Value N)
  get (object_value ms) k = elim (find_member k ms) [
    | none ↦ none
    | some nullptr ↦ none
    | some v ↦ some v
  ]
  get _ k = none

  unfoldable pub at : Value N → Bytes → Option (Value N)
  at (object_value ms) k = elim (find_member k ms) [
    | none ↦ none
    | some nullptr ↦ none
    | some v ↦ some v
  ]
  at _ k = none

  get_item : Items N → ℕ → Option (Value N)
  get_item nil i = none
  get_item (cons v vs) zero = some v
  get_item (cons v vs) (suc i) = get_item vs i

  unfoldable pub at_index : Value N → ℕ → Option (Value N)
  unfolding get_item
  at_index (array_value vs) i = get_item vs i
  at_index _ i = none

  unfoldable pub get_array : Value N → Option (Items N)
  get_array (array_value vs) = some vs
  get_array _ = none

  unfoldable pub get_string : Value N → Option Bytes
  get_string (string_value s) = some s
  get_string _ = none

  unfoldable pub get_number : Value N → Option N
  get_number (number_value n) = some n
  get_number _ = none

  unfoldable pub is_true : Value N → Bool
  is_true true_value = true
  is_true _ = false

  unfoldable pub is_false : Value N → Bool
  is_false false_value = true
  is_false _ = false

  unfoldable pub is_null : Value N → Bool
  is_null null_value = true
  is_null _ = false
