-- ===== src/Split/Pieces.antt =====
-- What `SplitStringUsing` returns: the pieces between the delimiters, empty ones dropped on request,
-- but never the last.
use gitlstreefs.Base.{
  ℕ, zero, suc, ◌+◌, ◌-◌, ◌≤◌, ◌<◌, ◌≡◌, ◌≢◌, refl, sym, ◌∙◌, Bool, true, false, ◌&&◌, none, some,
  List, [], ◌∷◌, ◌++◌, append-nil, append_assoc, arith, ◌==◌, if◌then◌else◌, inl, inr, Option-cases,
  Bool-cases, Bytes, index_of, Lacks, All, take, drop, length, drop-suc-drop, length-drop,
}
use gitlstreefs.Split.{emit, split_loop, split_string_using}

-- The pieces of a text, without positions: a new piece begins behind each `c`.
cons_head : ℕ → List Bytes → List Bytes
cons_head x [] = (x ∷ []) ∷ []
cons_head x (p ∷ ps) = (x ∷ p) ∷ ps

unfoldable pub pieces : ℕ → Bytes → List Bytes
unfolding cons_head
pieces c [] = [] ∷ []
pieces c (x ∷ xs) = if x == c then [] ∷ pieces c xs else cons_head x (pieces c xs)

-- Drop the empty pieces, but keep the last piece whatever it is.
unfoldable pub compress : List Bytes → List Bytes
compress [] = []
compress (p ∷ []) = p ∷ []
compress ([] ∷ q ∷ ps) = compress (q ∷ ps)
compress (p ∷ q ∷ ps) = p ∷ compress (q ∷ ps)

unfoldable pub tokens : Bool → List Bytes → List Bytes
unfolding compress
tokens true ps = compress ps
tokens false ps = ps

pub join : ℕ → List Bytes → Bytes
join c [] = []
join c (p ∷ []) = p
join c (p ∷ q ∷ ps) = p ++ c ∷ join c (q ∷ ps)

pub pieces-none : (c : ℕ) (s : Bytes) → index_of c s ≡ none → pieces c s ≡ s ∷ []
unfolding pieces
pieces-none c [] h = refl
pieces-none c (x ∷ xs) h = ground (arith, pieces-none c xs)

pieces-some :
    (c : ℕ) (s : Bytes) (k : ℕ)
    → index_of c s ≡ some k
    → (pieces c s ≡ take k s ∷ pieces c (drop (suc k) s)) × (k < length s)
unfolding pieces
pieces-some c [] k h = cc
pieces-some c (x ∷ xs) k h = elim (Option-cases (index_of c xs)) [
  | inl e ↦ ground arith
  | inr (j, e) ↦ ground (arith, pieces-some c xs j e)
]

pub pieces-cons : (c : ℕ) (s : Bytes) → (p : Bytes) × (ps : List Bytes) × (pieces c s ≡ p ∷ ps)
unfolding pieces
pieces-cons c [] = ([], [], refl)
pieces-cons c (x ∷ xs) =
    let (p, ps, e) = pieces-cons c xs in
    elim (Bool-cases (x == c)) [
      | inl at ↦ ([], pieces c xs, ground arith)
      | inr off ↦ (x ∷ p, ps, ground arith)
    ]

-- One piece in front of the others, as one round of the loop appends it.
tokens-cons :
    (b : Bool) (c k : ℕ) (s r : Bytes)
    → k ≤ length s
    → tokens b (take k s ∷ pieces c r)
      ≡ (if b && (k == 0) then [] else take k s ∷ []) ++ tokens b (pieces c r)
unfolding tokens
tokens-cons false c k s r h = refl
tokens-cons true c zero s r h = let (p, ps, e) = pieces-cons c r in rw e refl
tokens-cons true c (suc k) [] r h = absurd (omega arith)
tokens-cons true c (suc k) (x ∷ xs) r h = let (p, ps, e) = pieces-cons c r in ground arith

emit_lem :
    (s : Bytes) (prev k : ℕ) (b : Bool) (result : List Bytes)
    → emit s prev b (prev + k) result
      ≡ result ++ (if b && (k == 0) then [] else take k (drop prev s) ∷ [])
unfolding emit
emit_lem s prev k b result =
    let e : prev + k - prev ≡ k = omega arith in
    rw e (elim (Bool-cases (b && (k == 0))) [
      | inl skip ↦ rw skip (sym (append-nil result))
      | inr keep ↦ rw keep
    ])

tokens_one : (b : Bool) (p : Bytes) → tokens b (p ∷ []) ≡ p ∷ []
unfolding tokens
tokens_one true p = refl
tokens_one false p = refl

-- From any position the loop appends the tokens of what is left, if the fuel exceeds its length.
split_loop-pieces :
    (f : ℕ) (s : Bytes) (c : ℕ) (b : Bool) (prev : ℕ) (result : List Bytes)
    → length (drop prev s) < f
    → split_loop f s c b prev result ≡ some (result ++ tokens b (pieces c (drop prev s)))
unfolding split_loop tokens
split_loop-pieces zero s c b prev result h = absurd (omega arith)
split_loop-pieces (suc f) s c b prev result h = elim (Option-cases (index_of c (drop prev s))) [
  | inl e ↦ ground (arith, pieces-none c (drop prev s) e, tokens_one b (drop prev s))
  | inr (k, e) ↦
      let r = drop prev s in
      let (cut, inside) = pieces-some c r k e in
      let next = drop-suc-drop prev k s in
      let ih =
        split_loop-pieces f s c b (suc (prev + k)) (emit s prev b (prev + k) result)
          (rw next (omega (arith, length-drop {0} (suc k) r))) in
      rw (e, split_loop)
        (ih
          ∙ rw (emit_lem s prev k b result, next, append_assoc, cut)
              (rw (tokens-cons b c k r (drop (suc k) r) (omega arith))))
]

join-cons_head :
    (c x : ℕ) (p : Bytes) (ps : List Bytes) → join c ((x ∷ p) ∷ ps) ≡ x ∷ join c (p ∷ ps)
unfolding join
join-cons_head c x p [] = refl
join-cons_head c x p (q ∷ ps) = refl

-- The pieces joined by the delimiter are the text again.
pub join-pieces : (c : ℕ) (s : Bytes) → join c (pieces c s) ≡ s
unfolding join pieces
join-pieces c [] = refl
join-pieces c (x ∷ xs) =
    let (p, ps, e) = pieces-cons c xs in ground (arith, join-pieces c xs, join-cons_head c x p ps)

-- No piece holds the delimiter.
pieces-Lacks : (c : ℕ) (s : Bytes) → All (Lacks c) (pieces c s)
unfolding pieces
pieces-Lacks c [] = (refl, tt)
pieces-Lacks c (x ∷ xs) =
    let (p, ps, e) = pieces-cons c xs in
    let lacks = rw e at (pieces-Lacks c xs) in
    elim (Bool-cases (x == c)) [
      | inl at ↦ rw at (refl, pieces-Lacks c xs)
      | inr off ↦ rw (off, e) (ground (arith, lacks), lacks.1)
    ]

compress-Lacks : (c : ℕ) (ps : List Bytes) → All (Lacks c) ps → All (Lacks c) (compress ps)
unfolding compress
compress-Lacks c [] h = tt
compress-Lacks c (p ∷ []) h = h
compress-Lacks c ([] ∷ q ∷ ps) h = compress-Lacks c (q ∷ ps) h.1
compress-Lacks c ((x ∷ p) ∷ q ∷ ps) h = (h.0, compress-Lacks c (q ∷ ps) h.1)

-- All but the last piece are not empty.
abbrev pub FullButLast : List Bytes → Type 0
FullButLast [] = Unit
FullButLast (p ∷ []) = Unit
FullButLast (p ∷ q ∷ ps) = (p ≢ []) × FullButLast (q ∷ ps)

FullButLast-cons : (p : Bytes) (ps : List Bytes) → p ≢ [] → FullButLast ps → FullButLast (p ∷ ps)
FullButLast-cons p [] h f = tt
FullButLast-cons p (q ∷ ps) h f = (h, f)

compress-FullButLast : (ps : List Bytes) → FullButLast (compress ps)
unfolding compress
compress-FullButLast [] = tt
compress-FullButLast (p ∷ []) = tt
compress-FullButLast ([] ∷ q ∷ ps) = compress-FullButLast (q ∷ ps)
compress-FullButLast ((x ∷ p) ∷ q ∷ ps) =
    FullButLast-cons (x ∷ p) (compress (q ∷ ps)) (λ e. cc e) (compress-FullButLast (q ∷ ps))

-- On a text that is not empty, `SplitStringUsing` ends and returns the pieces between the
-- delimiters, described without positions; with compression, without the empty ones before the
-- last.
pub split_string_using-pieces :
    (x : ℕ) (xs : Bytes) (c : ℕ) (b : Bool)
    → split_string_using (x ∷ xs) c b ≡ some (tokens b (pieces c (x ∷ xs)))
unfolding split_string_using
split_string_using-pieces x xs c b =
    split_loop-pieces (suc (length (x ∷ xs))) (x ∷ xs) c b 0 [] (omega arith)

-- Without compression `SplitStringUsing` ends, its tokens joined by the delimiter are the text, and
-- none holds the delimiter.
pub split_string_using-join :
    (s : Bytes) (c : ℕ)
    → (ts : List Bytes) × (split_string_using s c false ≡ some ts)
      × (join c ts ≡ s)
      × All (Lacks c) ts
unfolding tokens
split_string_using-join [] c = ([], unfold split_string_using in refl, unfold join in refl, tt)
split_string_using-join (x ∷ xs) c = (
  pieces c (x ∷ xs),
  split_string_using-pieces x xs c false,
  join-pieces c (x ∷ xs),
  pieces-Lacks c (x ∷ xs),
)

-- With compression `SplitStringUsing` ends, no token holds the delimiter, and every token but the
-- last is not empty.
pub split_string_using_compressed :
    (s : Bytes) (c : ℕ)
    → (ts : List Bytes) × (split_string_using s c true ≡ some ts)
      × FullButLast ts
      × All (Lacks c) ts
unfolding tokens
split_string_using_compressed [] c = ([], unfold split_string_using in refl, tt, tt)
split_string_using_compressed (x ∷ xs) c = (
  compress (pieces c (x ∷ xs)),
  split_string_using-pieces x xs c true,
  compress-FullButLast (pieces c (x ∷ xs)),
  compress-Lacks c (pieces c (x ∷ xs)) (pieces-Lacks c (x ∷ xs)),
)
