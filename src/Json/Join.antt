-- ===== src/Json/Join.antt =====
-- The values and members of a JSON container, one list behind another.
use gitlstreefs.Base.{
  ◌≡◌, refl, ap, inl, inr, false, none, some, arith, Bool-cases, Bytes, bytes_eq, bytes_eq_iff,
}
use gitlstreefs.Json.Value.{
  Value, Items, nil, cons, Members, end, member, find_member, add_member, emplace_back,
}

module _ {N : Type 0} where
  unfoldable pub append_items : Items N → Items N → Items N
  append_items nil ws = ws
  append_items (cons v vs) ws = cons v (append_items vs ws)

  pub append_items-emplace_back :
      (acc : Items N) (v : Value N) (vs : Items N)
      → append_items (emplace_back acc v) vs ≡ append_items acc (cons v vs)
  unfolding append_items
  append_items-emplace_back nil v vs = refl
  append_items-emplace_back (cons w acc) v vs = ap (cons w) (append_items-emplace_back acc v vs)

  pub append_items-nil : (acc : Items N) → append_items acc nil ≡ acc
  unfolding append_items
  append_items-nil nil = refl
  append_items-nil (cons w acc) = ap (cons w) (append_items-nil acc)

  unfoldable pub append_members : Members N → Members N → Members N
  append_members end ms = ms
  append_members (member k v acc) ms = member k v (append_members acc ms)

  pub append_members-add_member :
      (acc : Members N) (k : Bytes) (v : Value N) (ms : Members N)
      → append_members (add_member k v acc) ms ≡ append_members acc (member k v ms)
  unfolding append_members
  append_members-add_member end k v ms = refl
  append_members-add_member (member j w acc) k v ms =
      ap (member j w) (append_members-add_member acc k v ms)

  pub append_members-end : (acc : Members N) → append_members acc end ≡ acc
  unfolding append_members
  append_members-end end = refl
  append_members-end (member j w acc) = ap (member j w) (append_members-end acc)

  pub find_member-add_member :
      (j k : Bytes) (v : Value N) (acc : Members N)
      → find_member j acc ≡ none
      → bytes_eq k j ≡ false
      → find_member j (add_member k v acc) ≡ none
  find_member-add_member j k v end h ne = rw ne
  find_member-add_member j k v (member i w acc) h ne =
      ground (arith, find_member-add_member j k v acc)

  -- No key of the second list is in the first.
  abbrev pub Apart : Members N → Members N → Type 0
  Apart acc ms = (j : Bytes) (w : Value N) → find_member j ms ≡ some w → find_member j acc ≡ none

  pub Apart-add_member :
      (acc : Members N) (k : Bytes) (v : Value N) (ms : Members N)
      → find_member k ms ≡ none
      → Apart acc (member k v ms)
      → Apart (add_member k v acc) ms
  Apart-add_member acc k v ms new apart j w found = elim (Bool-cases (bytes_eq k j)) [
    | inl same ↦ cc (new, found, ap (λ i. find_member i ms) ((bytes_eq_iff k j).0 same))
    | inr other ↦ find_member-add_member j k v acc (apart j w (rw other found)) other
  ]
