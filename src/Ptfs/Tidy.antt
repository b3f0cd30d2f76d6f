-- ===== src/Ptfs/Tidy.antt =====
-- The descriptors that are open belong to the live file handles, one each.
use gitlstreefs.Base.{
  ℕ, suc, ◌≡◌, refl, sym, ap, ◌∙◌, ◌≤◌, ◌⊎◌, inl, inr, Bool, true, false, not, ◌&&◌, ◌||◌, ◌==◌,
  ==_iff, Bool-cases, Option, none, some, List, [], ◌∷◌, arith, Bytes,
}
use gitlstreefs.Base.Outcome.{Outcome, done, undefined, out_of_fuel, defined, ◌>>=◌}
use gitlstreefs.Paths.{get_relative_path}
use gitlstreefs.Container.{update}
use gitlstreefs.Ptfs.{
  Syscall, openat, close, Answer, answer, errno, Reply, FileHandle, State, Served, lift,
  declare_relative, use_filehandle,
}
use gitlstreefs.Ptfs.Handler.{opened, wrap, within, with_fd}
use gitlstreefs.Ptfs.Callbacks.{keep_handle}
pub mod Serving
pub mod Leaks

abbrev pub opens_or_closes : Syscall → Bool
opens_or_closes (openat path flags mode) = true
opens_or_closes (close (some fd)) = true
opens_or_closes _ = false

-- The state after an answer of `openat`: it returns a new descriptor, or nothing changes.
abbrev pub Opened : {S : Type 0} → (S → ℕ → Bool) → S → Answer → S → Type 0
Opened is_open w (answer fd text) s =
    (is_open w fd ≡ false) × ((n : ℕ) → is_open s n ≡ (n == fd || is_open w n))
Opened is_open w (errno e) s = (n : ℕ) → is_open s n ≡ is_open w n

-- What the documentation of the system calls says about the open descriptors.
pub record IsKernel {S : Type 0} (syscall : Syscall → S → Answer × S)
    (scandirat : Bytes → S → Option (List Bytes) × S) (is_open : S → ℕ → Bool) : Type 0 where
  pub openat-Opened :
      (path : Bytes) (flags : ℕ) (mode : Option ℕ) (w : S)
      → Opened is_open w
          (syscall (openat path flags mode) w).0
          (syscall (openat path flags mode) w).1
  pub closed :
      (fd n : ℕ) (w : S)
      → is_open (syscall (close (some fd)) w).1 n ≡ (not (n == fd) && is_open w n)
  pub other :
      (call : Syscall) (n : ℕ) (w : S)
      → opens_or_closes call ≡ false
      → is_open (syscall call w).1 n ≡ is_open w n
  pub listed : (path : Bytes) (n : ℕ) (w : S) → is_open (scandirat path w).1 n ≡ is_open w n

-- The descriptors of the live handles are open, are distinct and were not open before (`base`), and
-- besides them just what was open before is.
pub record IsTidy {S : Type 0} (is_open : S → ℕ → Bool) (base : ℕ → Bool) (st : State S)
    : Type 0 where
  pub holds :
      (h fd : ℕ) → st.handles h ≡ some (some fd) → (is_open st.world fd ≡ true) × (base fd ≡ false)
  pub single : (h k fd : ℕ) → st.handles h ≡ some (some fd) → st.handles k ≡ some (some fd) → h ≡ k
  pub owned :
      (fd : ℕ)
      → is_open st.world fd ≡ true
      → (base fd ≡ true) ⊎ ((h : ℕ) × (st.handles h ≡ some (some fd)))
  pub kept : (fd : ℕ) → base fd ≡ true → is_open st.world fd ≡ true
  pub fresh : (h : ℕ) → st.next ≤ h → st.handles h ≡ none

module _ {S : Type 0} (is_open : S → ℕ → Bool) (base : ℕ → Bool) where
  pub same-IsTidy :
      (st : State S) (s : S)
      → ((n : ℕ) → is_open s n ≡ is_open st.world n)
      → IsTidy is_open base st
      → IsTidy is_open base (record st { world = s })
  same-IsTidy st s same t = record {
    holds = λ h fd e. (same fd ∙ (t.holds h fd e).0, (t.holds h fd e).1);
    single = t.single;
    owned = λ fd e. t.owned fd (sym (same fd) ∙ e);
    kept = λ fd e. same fd ∙ t.kept fd e;
    fresh = t.fresh;
  }

  open-holds :
      (st : State S) (s : S) (fd h k : ℕ)
      → is_open st.world fd ≡ false
      → ((n : ℕ) → is_open s n ≡ (n == fd || is_open st.world n))
      → IsTidy is_open base st
      → update st.handles st.next (some (some fd)) h ≡ some (some k)
      → (is_open s k ≡ true) × (base k ≡ false)
  open-holds st s fd h k new after t e =
      let a = after k in
      let b = t.kept fd in
      elim (Bool-cases (st.next == h)) [
        | inl q ↦ (ground (arith, a, b, e, q, new), ground (arith, a, b, e, q, new))
        | inr q ↦ let c = t.holds h k in (ground (arith, a, c, e, q), ground (arith, c, e, q))
      ]

  open-single :
      (st : State S) (fd h k j : ℕ)
      → is_open st.world fd ≡ false
      → IsTidy is_open base st
      → update st.handles st.next (some (some fd)) h ≡ some (some j)
      → update st.handles st.next (some (some fd)) k ≡ some (some j)
      → h ≡ k
  open-single st fd h k j new t e f =
      let a = t.holds h j in
      let b = t.holds k j in
      let c = t.single h k j in
      elim (Bool-cases (st.next == h)) [
        | inl q ↦ elim (Bool-cases (st.next == k)) [
          | inl r ↦ ground (arith, q, r)
          | inr r ↦ ground (arith, b, e, f, q, r, new)
        ]
        | inr q ↦ elim (Bool-cases (st.next == k)) [
          | inl r ↦ ground (arith, a, e, f, q, r, new)
          | inr r ↦ ground (arith, c, e, f, q, r)
        ]
      ]

  open-owned :
      (st : State S) (s : S) (fd k : ℕ)
      → ((n : ℕ) → is_open s n ≡ (n == fd || is_open st.world n))
      → IsTidy is_open base st
      → is_open s k ≡ true
      → (base k ≡ true) ⊎ ((h : ℕ) × (update st.handles st.next (some (some fd)) h ≡ some (some k)))
  open-owned st s fd k after t e =
      let a = after k in
      let free = t.fresh st.next (omega arith) in
      elim (Bool-cases (k == fd)) [
        | inl q ↦ inr (st.next, ground (arith, q))
        | inr q ↦ elim (t.owned k (ground (arith, a, e, q))) [
          | inl b ↦ inl b
          | inr (h, held) ↦
              let old : st.next == h ≡ false = ground (arith, free, held) in
              inr (h, ground (arith, old, held))
        ]
      ]

  pub keep_handle-IsTidy :
      (a : Answer) (s : S) (st : State S)
      → Opened is_open st.world a s
      → IsTidy is_open base st
      → IsTidy is_open base (keep_handle (opened a, s) st).2
  keep_handle-IsTidy (errno e) s st same t = same-IsTidy st s same t
  keep_handle-IsTidy (answer fd text) s st (new, after) t = record {
    holds = λ h k. open-holds st s fd h k new after t;
    single = λ h k j. open-single st fd h k j new t;
    owned = λ k. open-owned st s fd k after t;
    kept = λ k e. let a = after k in let b = t.kept k e in ground (arith, a, b);
    fresh = λ h le.
        let a = t.fresh h (omega arith) in
        let ne : st.next == h ≡ false = ground (arith, le) in ground (arith, a, ne);
  }

  -- The handle `h` with the descriptor `fd` is gone, and the descriptor is closed.
  pub release-IsTidy :
      (st : State S) (s : S) (h fd : ℕ)
      → st.handles h ≡ some (some fd)
      → ((n : ℕ) → is_open s n ≡ (not (n == fd) && is_open st.world n))
      → IsTidy is_open base st
      → IsTidy is_open base (record st { world = s; handles = update st.handles h none })
  release-IsTidy st s h fd held after t = record {
    holds = λ k j e.
        let a = after j in
        let b = t.holds k j in
        let c = t.single h k fd held in
        elim (Bool-cases (h == k)) [
          | inl q ↦ (ground (arith, e, q), ground (arith, e, q))
          | inr q ↦ (ground (arith, a, b, c, e, q), ground (arith, b, e, q))
        ];
    single = λ k j n e f. let c = t.single k j n in ground (arith, c, e, f);
    owned = λ k e.
        let a = after k in
        elim (t.owned k (ground (arith, a, e))) [
          | inl b ↦ inl b
          | inr (j, at) ↦
              let other : h == j ≡ false = ground (arith, held, at, a, e) in
              inr (j, ground (arith, other, at))
        ];
    kept = λ k e.
        let a = after k in
        let b = t.kept k e in
        let c = (t.holds h fd held).1 in
        let ne : k == fd ≡ false = ground (arith, c, e) in ground (arith, a, b, ne);
    fresh = λ k le. let a = t.fresh k le in ground (arith, a);
  }

  -- A handle without a descriptor is gone.
  pub drop_handle-IsTidy :
      (st : State S) (s : S) (h : ℕ)
      → st.handles h ≡ some none
      → ((n : ℕ) → is_open s n ≡ is_open st.world n)
      → IsTidy is_open base st
      → IsTidy is_open base (record st { world = s; handles = update st.handles h none })
  drop_handle-IsTidy st s h held same t = record {
    holds = λ k j e.
        let a = same j in let b = t.holds k j in (ground (arith, a, b, e), ground (arith, b, e));
    single = λ k j n e f. let c = t.single k j n in ground (arith, c, e, f);
    owned = λ k e.
        let a = same k in
        elim (t.owned k (ground (arith, a, e))) [
          | inl b ↦ inl b
          | inr (j, at) ↦
              let other : h == j ≡ false = ground (arith, held, at) in
              inr (j, ground (arith, other, at))
        ];
    kept = λ k e. let a = same k in let b = t.kept k e in ground (arith, a, b);
    fresh = λ k le. let a = t.fresh k le in ground (arith, a);
  }
