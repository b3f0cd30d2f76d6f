-- ===== src/NinjaBuilder/Lines.antt =====
-- The order of `std::string` and the set of lines.
use mathlib.Core.Path.{subst}
use gitlstreefs.Base.{
  ℕ, suc, ◌≡◌, refl, sym, ap, ◌∙◌, Bool-cases, inl, inr, true, false, List, [], ◌∷◌, All, arith,
  if◌then◌else◌, Bytes, bytes_eq, bytes_eq_iff,
}
use gitlstreefs.NinjaBuilder.{less, insert_line}

less-irreflexive : (a : Bytes) → less a a ≡ false
less-irreflexive [] = refl
less-irreflexive (x ∷ a) = ground (arith, less-irreflexive a)

less-transitive : (a b c : Bytes) → less a b ≡ true → less b c ≡ true → less a c ≡ true
less-transitive [] [] c h k = cc h
less-transitive [] (y ∷ b) [] h k = cc k
less-transitive [] (y ∷ b) (z ∷ c) h k = refl
less-transitive (x ∷ a) [] c h k = cc h
less-transitive (x ∷ a) (y ∷ b) [] h k = cc k
less-transitive (x ∷ a) (y ∷ b) (z ∷ c) h k = ground (arith, less-transitive a b c)

less-total : (a b : Bytes) → less a b ≡ false → less b a ≡ false → a ≡ b
less-total [] [] h k = refl
less-total [] (y ∷ b) h k = cc h
less-total (x ∷ a) [] h k = cc k
less-total (x ∷ a) (y ∷ b) h k = ground (arith, less-total a b)

-- The lines stand in strictly ascending order.
abbrev pub IsSorted : List Bytes → Type 0
IsSorted [] = Unit
IsSorted (l ∷ ls) = All (λ m. less l m ≡ true) ls × IsSorted ls

-- How often a line stands there.
abbrev pub count : Bytes → List Bytes → ℕ
count k [] = 0
count k (l ∷ ls) = if bytes_eq k l then suc (count k ls) else count k ls

All-above :
    (a b : Bytes) (ls : List Bytes)
    → less a b ≡ true
    → All (λ m. less b m ≡ true) ls
    → All (λ m. less a m ≡ true) ls
All-above a b [] h k = tt
All-above a b (l ∷ ls) h k = (less-transitive a b l h k.0, All-above a b ls h k.1)

count-above : (k : Bytes) (ls : List Bytes) → All (λ m. less k m ≡ true) ls → count k ls ≡ 0
count-above k [] h = refl
count-above k (l ∷ ls) h = elim (Bool-cases (bytes_eq k l)) [
  | inl same ↦
      let e : k ≡ l = (bytes_eq_iff k l).0 same in
      cc (sym (less-irreflexive k) ∙ ap (less k) e ∙ h.0)
  | inr other ↦ rw other (count-above k ls h.1)
]

distinct : (a b : Bytes) → less a b ≡ true → bytes_eq a b ≡ false
distinct a b h = elim (Bool-cases (bytes_eq a b)) [
  | inr other ↦ other
  | inl same ↦ cc (sym (less-irreflexive a) ∙ ap (less a) ((bytes_eq_iff a b).0 same) ∙ h)
]

All-insert_line :
    (a line : Bytes) (ls : List Bytes)
    → less a line ≡ true
    → All (λ m. less a m ≡ true) ls
    → All (λ m. less a m ≡ true) (insert_line line ls)
All-insert_line a line [] h k = (h, tt)
All-insert_line a line (l ∷ ls) h k = elim (Bool-cases (less line l)) [
  | inl before ↦ rw before (h, k)
  | inr not_before ↦ elim (Bool-cases (less l line)) [
    | inl after ↦ rw (not_before, after) (k.0, All-insert_line a line ls h k.1)
    | inr here ↦ rw (not_before, here) k
  ]
]

pub insert_line-IsSorted :
    (line : Bytes) (ls : List Bytes) → IsSorted ls → IsSorted (insert_line line ls)
insert_line-IsSorted line [] h = (tt, tt)
insert_line-IsSorted line (l ∷ ls) h = elim (Bool-cases (less line l)) [
  | inl before ↦ rw before ((before, All-above line l ls before h.0), h)
  | inr not_before ↦ elim (Bool-cases (less l line)) [
    | inl after ↦
        rw (not_before, after)
          (All-insert_line l line ls after h.0, insert_line-IsSorted line ls h.1)
    | inr here ↦ rw (not_before, here) h
  ]
]

-- A line that is inserted stands there once, and the others as before.
pub count-insert_line :
    (k line : Bytes) (ls : List Bytes)
    → IsSorted ls
    → count k (insert_line line ls) ≡ (if bytes_eq k line then 1 else count k ls)
count-insert_line k line [] h = refl
count-insert_line k line (l ∷ ls) h = elim (Bool-cases (less line l)) [
  | inl before ↦
      let none_left : count line (l ∷ ls) ≡ 0 =
        count-above line (l ∷ ls) (before, All-above line l ls before h.0) in
      rw before (elim (Bool-cases (bytes_eq k line)) [
        | inr other ↦ rw other refl
        | inl same ↦
            let e : k ≡ line = (bytes_eq_iff k line).0 same in
            rw same (ap suc (ap (λ x. count x (l ∷ ls)) e ∙ none_left))
      ])
  | inr not_before ↦ elim (Bool-cases (less l line)) [
    | inl after ↦
        rw (not_before, after)
          (elim (Bool-cases (bytes_eq k l)) [
            | inr other ↦ rw other (count-insert_line k line ls h.1)
            | inl same ↦
                let e : k ≡ l = (bytes_eq_iff k l).0 same in
                let apart : bytes_eq k line ≡ false =
                  distinct k line (subst (λ x. less x line ≡ true) (sym e) after) in
                rw (same, apart) (ap suc (count-insert_line k line ls h.1 ∙ rw apart refl))
          ])
    | inr here ↦
        let e : line ≡ l = less-total line l not_before here in
        rw (not_before, here)
          (elim (Bool-cases (bytes_eq k line)) [
            | inr other ↦ rw other refl
            | inl same ↦
                let e' : k ≡ l = (bytes_eq_iff k line).0 same ∙ e in
                let is : bytes_eq k l ≡ true = (bytes_eq_iff k l).1 e' in
                rw (same, is) (ap suc (ap (λ x. count x ls) e' ∙ count-above l ls h.0))
          ])
  ]
]
