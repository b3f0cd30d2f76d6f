-- ===== src/Container/Names.antt =====
-- Absolute paths as lists of names, the last name first: "/a/b" is `b ∷ a ∷ []`.
use gitlstreefs.Base.{
  ℕ, ◌≤◌, ◌≡◌, ◌↔◌, refl, ap, ap₂, sym, ◌∙◌, ◌≢◌, inl, inr, Bool-cases, Bool, true, false, ◌&&◌,
  List, [], ◌∷◌, ◌++◌, arith, Bytes, bytes_eq, bytes_eq_iff, length, length-append, Lacks,
}
use gitlstreefs.Paths.{base_name, dir_name}
use gitlstreefs.Paths.Laws.{dir_name-base_name_append}

abbrev pub Names : Type 0
Names = List Bytes

abbrev pub render : Names → Bytes
render [] = []
render (b ∷ up) = render up ++ b'/' ∷ b

-- Names are not empty and hold no slash.
abbrev pub Valid : Names → Type 0
Valid [] = Unit
Valid (b ∷ up) = (b ≢ []) × Lacks b'/' b × Valid up

pub dir_name-render :
    (b : Bytes) (up : Names) → Valid (b ∷ up) → dir_name (render (b ∷ up)) ≡ render up
dir_name-render b up v = (dir_name-base_name_append (render up) b v.1).0

pub base_name-render : (b : Bytes) (up : Names) → Valid (b ∷ up) → base_name (render (b ∷ up)) ≡ b
base_name-render b up v = (dir_name-base_name_append (render up) b v.1).1

append-ne-nil : (d : Bytes) (x : ℕ) (b : Bytes) → d ++ x ∷ b ≢ []
append-ne-nil [] x b e = cc e
append-ne-nil (y ∷ d) x b e = cc e

pub render-ne-nil : (b : Bytes) (up : Names) → render (b ∷ up) ≢ []
render-ne-nil b up = append-ne-nil (render up) b'/' b

pub render-ne-slash : (b : Bytes) (up : Names) → Valid (b ∷ up) → render (b ∷ up) ≢ b'/' ∷ []
render-ne-slash b up v e =
    v.0 (sym (base_name-render b up v) ∙ ap base_name e ∙ (dir_name-base_name_append [] [] refl).1)

-- A path says which names it is made of.
pub render-injective : (x y : Names) → Valid x → Valid y → render x ≡ render y → x ≡ y
render-injective [] [] v w e = refl
render-injective [] (b ∷ y) v w e = absurd (render-ne-nil b y (sym e))
render-injective (b ∷ x) [] v w e = absurd (render-ne-nil b x e)
render-injective (a ∷ x) (b ∷ y) v w e =
    ap₂ ◌∷◌ (sym (base_name-render a x v) ∙ ap base_name e ∙ base_name-render b y w) (
      render-injective x y v.2 w.2
        (sym (dir_name-render a x v) ∙ ap dir_name e ∙ dir_name-render b y w))

pub length-render : (x : Names) → length x ≤ length (render x)
length-render [] = omega arith
length-render (b ∷ up) = omega (arith, length-render up, length-append (render up) (b'/' ∷ b))

unfoldable pub names_eq : Names → Names → Bool
names_eq [] [] = true
names_eq (a ∷ x) (b ∷ y) = bytes_eq a b && names_eq x y
names_eq _ _ = false

pub names_eq_iff : (x y : Names) → (names_eq x y ≡ true) ↔ (x ≡ y)
unfolding names_eq
names_eq_iff (a ∷ x) (b ∷ y) = ground (arith, bytes_eq_iff a b, names_eq_iff x y)
names_eq_iff _ _ = ground arith

pub bytes_eq-render :
    (x y : Names) → Valid x → Valid y → bytes_eq (render x) (render y) ≡ names_eq x y
bytes_eq-render x y v w = elim (Bool-cases (names_eq x y)) [
  | inl e ↦ rw e ((bytes_eq_iff _ _).1 (ap render ((names_eq_iff x y).0 e)))
  | inr e ↦
      ground (arith, bytes_eq_iff (render x) (render y), names_eq_iff x y, render-injective x y v w)
]

cons-ne : (b : Bytes) (up : Names) → up ≢ b ∷ up
cons-ne b up e = omega (arith, ap (length {A = Bytes}) e)

pub names_eq_cons : (b : Bytes) (up : Names) → names_eq up (b ∷ up) ≡ false
names_eq_cons b up = ground (arith, names_eq_iff up (b ∷ up), cons-ne b up)
