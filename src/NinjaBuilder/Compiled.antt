-- ===== src/NinjaBuilder/Compiled.antt =====
-- What a builder holds after any calls.
use gitlstreefs.Base.{
  ◌≡◌, refl, ◌∙◌, Bool-cases, inl, inr, List, [], ◌∷◌, ◌++◌, Bytes, bytes_eq, bytes_eq_refl,
}
use gitlstreefs.NinjaBuilder.{
  NinjaBuilder, Config, CompileLinkObject, construct, cclink_rule, destroy_object, run_test,
  run_test_script, compile_line, insert_line, insert_lines,
}
use gitlstreefs.NinjaBuilder.Lines.{IsSorted, count, insert_line-IsSorted, count-insert_line}

-- The builders that the public calls make, with the sources of the objects that were destroyed.
pub data Built : NinjaBuilder → List Bytes → Type 0 where
  constructed : (config : Config) → Built (construct config) []
  ruled :
      (n : NinjaBuilder) (sources : List Bytes) (name command : Bytes)
      → Built n sources
      → Built (cclink_rule name command n) sources
  destroyed :
      (n : NinjaBuilder) (sources : List Bytes) (c : CompileLinkObject)
      → Built n sources
      → Built (destroy_object c n) (c.sources ++ sources)
  tested :
      (n : NinjaBuilder) (sources : List Bytes) (target : Bytes) (depends : List Bytes)
      → Built n sources
      → Built (run_test target depends n) sources
  scripted :
      (n : NinjaBuilder) (sources : List Bytes) (target : Bytes) (depends : List Bytes)
      → Built n sources
      → Built (run_test_script target depends n) sources

-- Every source is compiled by one line.
abbrev pub AreCompiled : List Bytes → List Bytes → Type 0
AreCompiled lines [] = Unit
AreCompiled lines (s ∷ ss) = (count (compile_line s) lines ≡ 1) × AreCompiled lines ss

AreCompiled-append :
    (lines ss ts : List Bytes)
    → AreCompiled lines ss
    → AreCompiled lines ts
    → AreCompiled lines (ss ++ ts)
AreCompiled-append lines [] ts h k = k
AreCompiled-append lines (s ∷ ss) ts h k = (h.0, AreCompiled-append lines ss ts h.1 k)

count-kept :
    (k line : Bytes) (ls : List Bytes)
    → IsSorted ls
    → count k ls ≡ 1
    → count k (insert_line line ls) ≡ 1
count-kept k line ls h one = elim (Bool-cases (bytes_eq k line)) [
  | inl same ↦ count-insert_line k line ls h ∙ rw same refl
  | inr other ↦ count-insert_line k line ls h ∙ rw other one
]

count-kept_all :
    (k : Bytes) (ss ls : List Bytes)
    → IsSorted ls
    → count k ls ≡ 1
    → count k (insert_lines ss ls) ≡ 1
count-kept_all k [] ls h one = one
count-kept_all k (s ∷ ss) ls h one =
    count-kept_all k ss (insert_line (compile_line s) ls)
      (insert_line-IsSorted (compile_line s) ls h) (count-kept k (compile_line s) ls h one)

AreCompiled-kept :
    (ts ss ls : List Bytes) → IsSorted ls → AreCompiled ls ts → AreCompiled (insert_lines ss ls) ts
AreCompiled-kept [] ss ls h k = tt
AreCompiled-kept (t ∷ ts) ss ls h k =
    (count-kept_all (compile_line t) ss ls h k.0, AreCompiled-kept ts ss ls h k.1)

insert_lines-AreCompiled :
    (ss ls : List Bytes)
    → IsSorted ls
    → IsSorted (insert_lines ss ls) × AreCompiled (insert_lines ss ls) ss
insert_lines-AreCompiled [] ls h = (h, tt)
insert_lines-AreCompiled (s ∷ ss) ls h =
    let sorted = insert_line-IsSorted (compile_line s) ls h in
    let once : count (compile_line s) (insert_line (compile_line s) ls) ≡ 1 =
      count-insert_line (compile_line s) (compile_line s) ls h
      ∙ rw (bytes_eq_refl (compile_line s)) refl in
    let rest = insert_lines-AreCompiled ss (insert_line (compile_line s) ls) sorted in
    (
      rest.0,
      (count-kept_all (compile_line s) ss (insert_line (compile_line s) ls) sorted once, rest.1),
    )

-- After any calls of the methods, and any destruction of the objects that they return, the lines that
-- compile stand in ascending order, and every source of such an object is compiled by exactly one of
-- them, however many objects share it.
pub Built-AreCompiled :
    (n : NinjaBuilder) (sources : List Bytes)
    → Built n sources
    → IsSorted n.uniquify_build_lines × AreCompiled n.uniquify_build_lines sources
unfolding construct cclink_rule destroy_object run_test run_test_script
Built-AreCompiled n sources (constructed config) = (tt, tt)
Built-AreCompiled n ss (ruled m sources name command b) = Built-AreCompiled m sources b
Built-AreCompiled n ss (tested m sources target depends b) = Built-AreCompiled m sources b
Built-AreCompiled n ss (scripted m sources target depends b) = Built-AreCompiled m sources b
Built-AreCompiled n sources (destroyed m others c b) =
    let before = Built-AreCompiled m others b in
    let after = insert_lines-AreCompiled c.sources m.uniquify_build_lines before.0 in
    (
      after.0,
      AreCompiled-append (insert_lines c.sources m.uniquify_build_lines) c.sources others after.1
          (AreCompiled-kept others c.sources m.uniquify_build_lines before.0 before.1),
    )
