-- ===== src/CpioFs/Devices.antt =====
-- The map of hard links where `operator<` orders the keys, as it does those of one device: the map
-- finds a key by its numbers.
use gitlstreefs.Base.{
  ℕ, ◌+◌, ◌%◌, ◌^◌, ◌<◌, ◌≡◌, refl, Bool, Bool-cases, inl, inr, true, false, not, ◌&&◌, ◌||◌,
  Option, none, some, List, [], ◌∷◌, All, ltb, ◌==◌, arith, if◌then◌else◌, Bytes,
}
use gitlstreefs.Base.Outcome.{done, defined}
use gitlstreefs.CpioFs.{
  HardlinkKey, HardlinkMap, int32_less, key_less, all_of, in_order, are_ordered, keys_of,
  equivalent, search, replace, find_link, assign_link,
}

-- The device numbers of the key are these two, and its inode has 32 bits.
abbrev pub IsOn : ℕ → ℕ → HardlinkKey → Type 0
IsOn major minor k = (k.key_major ≡ major) × (k.key_minor ≡ minor) × (k.key_inode < 2 ^ 32)

-- A set of keys of which `operator<` is an order, and whose numbers have 32 bits.
pub record IsOrder (P : HardlinkKey → Type 0) : Type 0 where
  pub ordered : (a b c : HardlinkKey) → P a → P b → P c → in_order a b c ≡ true
  pub words :
      (k : HardlinkKey)
      → P k
      → (k.key_major < 2 ^ 32) × (k.key_minor < 2 ^ 32) × (k.key_inode < 2 ^ 32)

-- All keys of the map belong to the set.
abbrev pub AreIn : (HardlinkKey → Type 0) → HardlinkMap → Type 0
AreIn P [] = Unit
AreIn P ((k, header) ∷ m) = P k × AreIn P m

-- The number of an inode with the order of the `int32_t`.
abbrev rank : HardlinkKey → ℕ
rank k = (k.key_inode + 2 ^ 31) % 2 ^ 32

int32_less-irreflexive : (a : ℕ) → int32_less a a ≡ false
int32_less-irreflexive a = ground arith

key_less-rank :
    (major minor : ℕ) (a b : HardlinkKey)
    → IsOn major minor a
    → IsOn major minor b
    → key_less a b ≡ ltb (rank a) (rank b)
unfolding key_less
key_less-rank major minor a b (am, an, ai) (bm, bn, bi) =
    rw (am, an, bm, bn, int32_less-irreflexive major, int32_less-irreflexive minor) refl

pub ranks-in_order :
    (x y z : ℕ) → (not (ltb x y && ltb y x) && (not (ltb x y && ltb y z) || ltb x z)) ≡ true
ranks-in_order x y z = ground arith

numbers-equal :
    (i j k l m n : ℕ)
    → i < 2 ^ 32
    → j < 2 ^ 32
    → k < 2 ^ 32
    → l < 2 ^ 32
    → m < 2 ^ 32
    → n < 2 ^ 32
    → (not (int32_less i j || int32_less k l || int32_less m n)
        && not (int32_less j i || int32_less l k || int32_less n m))
      ≡ (i == j && k == l && m == n)
numbers-equal i j k l m n hi hj hk hl hm hn = ground arith

in_order-IsOn :
    (major minor : ℕ) (a b c : HardlinkKey)
    → IsOn major minor a
    → IsOn major minor b
    → IsOn major minor c
    → in_order a b c ≡ true
unfolding in_order
in_order-IsOn major minor a b c ha hb hc =
    rw
      (
        key_less-rank major minor a b ha hb,
        key_less-rank major minor b a hb ha,
        key_less-rank major minor b c hb hc,
        key_less-rank major minor a c ha hc,
      )
      (ranks-in_order (rank a) (rank b) (rank c))

-- The keys of one device are such a set.
pub IsOn-IsOrder : (major minor : ℕ) → major < 2 ^ 32 → minor < 2 ^ 32 → IsOrder (IsOn major minor)
IsOn-IsOrder major minor h k = record {
  ordered = λ a b c. in_order-IsOn major minor a b c;
  words = λ a on. (rw (on.0) h, rw (on.1) k, on.2);
}

-- Keys with the same three numbers.
abbrev pub same_numbers : HardlinkKey → HardlinkKey → Bool
same_numbers a b =
    a.key_major == b.key_major && a.key_minor == b.key_minor && a.key_inode == b.key_inode

-- What is noted under the numbers of a key.
abbrev pub noted : HardlinkKey → HardlinkMap → Option Bytes
noted key [] = none
noted key ((k, header) ∷ m) = if same_numbers k key then some header else noted key m

-- The map with something else noted under the numbers of a key.
abbrev pub note : HardlinkKey → Bytes → HardlinkMap → HardlinkMap
note key header [] = (key, header) ∷ []
note key header ((k, h) ∷ m) =
    let rest = note key header m in if same_numbers k key then (k, header) ∷ m else (k, h) ∷ rest

equivalent-same_numbers :
    {P : HardlinkKey → Type 0} (o : IsOrder P) (a b : HardlinkKey)
    → P a
    → P b
    → equivalent a b ≡ same_numbers a b
unfolding equivalent key_less
equivalent-same_numbers o a b ha hb =
    let (am, an, ai) = o.words a ha in
    let (bm, bn, bi) = o.words b hb in
    numbers-equal a.key_major b.key_major a.key_minor b.key_minor a.key_inode b.key_inode am bm an
      bn ai bi

all_of_lem :
    {A : Type 0} {P : A → Type 0} (test : A → Bool) (xs : List A)
    → ((x : A) → P x → test x ≡ true)
    → All P xs
    → all_of test xs ≡ true
all_of_lem test [] h a = refl
all_of_lem test (x ∷ xs) h a = rw (h x a.0) (all_of_lem test xs h a.1)

keys_of-AreIn : (P : HardlinkKey → Type 0) (m : HardlinkMap) → AreIn P m → All P (keys_of m)
keys_of-AreIn P [] h = tt
keys_of-AreIn P ((k, header) ∷ m) h = (h.0, keys_of-AreIn P m h.1)

are_ordered-IsOrder :
    {P : HardlinkKey → Type 0} (o : IsOrder P) (ks : List HardlinkKey)
    → All P ks
    → are_ordered ks ≡ true
unfolding are_ordered
are_ordered-IsOrder o ks h =
    all_of_lem _ ks
      (λ a ha. all_of_lem _ ks (λ b hb. all_of_lem _ ks (λ c hc. o.ordered a b c ha hb hc) h) h) h

search-noted :
    {P : HardlinkKey → Type 0} (o : IsOrder P) (key : HardlinkKey) (m : HardlinkMap)
    → P key
    → AreIn P m
    → search key m ≡ noted key m
unfolding search
search-noted o key [] h a = refl
search-noted o key ((k, header) ∷ m) h a =
    rw (equivalent-same_numbers o k key a.0 h, search-noted o key m h a.1) refl

replace-note :
    {P : HardlinkKey → Type 0} (o : IsOrder P) (key : HardlinkKey) (header : Bytes)
    (m : HardlinkMap)
    → P key
    → AreIn P m
    → replace key header m ≡ note key header m
unfolding replace
replace-note o key header [] h a = refl
replace-note o key header ((k, old) ∷ m) h a =
    rw (equivalent-same_numbers o k key a.0 h, replace-note o key header m h a.1) refl

pub find_link-noted :
    {P : HardlinkKey → Type 0} (o : IsOrder P) (key : HardlinkKey) (m : HardlinkMap)
    → P key
    → AreIn P m
    → find_link key m ≡ defined (noted key m)
unfolding find_link
find_link-noted {P = P} o key m h a =
    let ordered = are_ordered-IsOrder o (key ∷ keys_of m) (h, keys_of-AreIn P m a) in
    rw (ordered, search-noted o key m h a) refl

pub assign_link-note :
    {P : HardlinkKey → Type 0} (o : IsOrder P) (key : HardlinkKey) (header : Bytes)
    (m : HardlinkMap)
    → P key
    → AreIn P m
    → assign_link key header m ≡ done (note key header m)
unfolding assign_link
assign_link-note {P = P} o key header m h a =
    let ordered = are_ordered-IsOrder o (key ∷ keys_of m) (h, keys_of-AreIn P m a) in
    rw (ordered, replace-note o key header m h a) refl

pub note-AreIn :
    (P : HardlinkKey → Type 0) (key : HardlinkKey) (header : Bytes) (m : HardlinkMap)
    → P key
    → AreIn P m
    → AreIn P (note key header m)
note-AreIn P key header [] h a = (h, tt)
note-AreIn P key header ((k, old) ∷ m) h a = elim (Bool-cases (same_numbers k key)) [
  | inl same ↦ rw same a
  | inr other ↦ rw other (a.0, note-AreIn P key header m h a.1)
]
