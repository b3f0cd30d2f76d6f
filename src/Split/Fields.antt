-- ===== src/Split/Fields.antt =====
-- The fields of a line, as `SplitStringUsing` with compression finds them.
use gitlstreefs.Base.{
  ℕ, ◌≡◌, ◌≢◌, refl, ap, ◌∙◌, true, false, some, List, [], ◌∷◌, ◌++◌, arith, Bytes, Lacks,
}
use gitlstreefs.Split.{split_string_using}
use gitlstreefs.Split.Pieces.{
  pieces, pieces-none, pieces-cons, compress, tokens, split_string_using-pieces,
}

abbrev pub fields : ℕ → Bytes → List Bytes
fields c s = compress (pieces c s)

pieces-append : (c : ℕ) (p s : Bytes) → Lacks c p → pieces c (p ++ c ∷ s) ≡ p ∷ pieces c s
unfolding pieces
pieces-append c [] s h = ground arith
pieces-append c (x ∷ p) s h = ground (arith, pieces-append c p s)

compress-cons :
    (c : ℕ) (p s : Bytes) → p ≢ [] → compress (p ∷ pieces c s) ≡ p ∷ compress (pieces c s)
unfolding compress
compress-cons c [] s h = absurd (h refl)
compress-cons c (x ∷ p) s h = let (q, ps, e) = pieces-cons c s in rw e

-- A field that is not empty, and what follows.
pub fields-append :
    (c : ℕ) (p s : Bytes) → p ≢ [] → Lacks c p → fields c (p ++ c ∷ s) ≡ p ∷ fields c s
fields-append c p s h k = ap compress (pieces-append c p s k) ∙ compress-cons c p s h

pub fields-delimiter : (c : ℕ) (s : Bytes) → fields c (c ∷ s) ≡ fields c s
unfolding compress
fields-delimiter c s =
    let (q, ps, e) = pieces-cons c s in ap compress (pieces-append c [] s refl) ∙ rw e

pub fields-one : (c : ℕ) (p : Bytes) → Lacks c p → fields c p ≡ p ∷ []
unfolding compress
fields-one c p h = rw (pieces-none c p h)

compress-full :
    (p : Bytes) (ps : List Bytes) → (q : Bytes) × (qs : List Bytes) × (compress (p ∷ ps) ≡ q ∷ qs)
unfolding compress
compress-full p [] = (p, [], refl)
compress-full [] (q ∷ ps) = compress-full q ps
compress-full (x ∷ p) (q ∷ ps) = (x ∷ p, compress (q ∷ ps), refl)

pub fields-cons : (c : ℕ) (s : Bytes) → (q : Bytes) × (qs : List Bytes) × (fields c s ≡ q ∷ qs)
fields-cons c s =
    let (p, ps, e) = pieces-cons c s in
    let (q, qs, f) = compress-full p ps in (q, qs, ap compress e ∙ f)

pub split_string_using-fields :
    (s : Bytes) (c : ℕ) → s ≢ [] → split_string_using s c true ≡ some (fields c s)
unfolding tokens
split_string_using-fields [] c h = absurd (h refl)
split_string_using-fields (x ∷ s) c h = split_string_using-pieces x s c true

-- A text with one delimiter, without compression.
pub split_string_using-two :
    (c : ℕ) (p q : Bytes)
    → Lacks c p
    → Lacks c q
    → split_string_using (p ++ c ∷ q) c false ≡ some (p ∷ q ∷ [])
unfolding tokens
split_string_using-two c [] q h k =
    split_string_using-pieces c q c false
    ∙ ap some (pieces-append c [] q h ∙ ap (λ r. [] ∷ r) (pieces-none c q k))
split_string_using-two c (x ∷ p) q h k =
    split_string_using-pieces x (p ++ c ∷ q) c false
    ∙ ap some (pieces-append c (x ∷ p) q h ∙ ap (λ r. (x ∷ p) ∷ r) (pieces-none c q k))
