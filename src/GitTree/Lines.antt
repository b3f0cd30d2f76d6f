-- ===== src/GitTree/Lines.antt =====
-- What `LoadDirectory` makes of a line of `git ls-tree -l`.
use gitlstreefs.Base.{
  ℕ, zero, suc, ◌<◌, ◌%◌, ◌^◌, arith, strtol, none, ◌≡◌, ◌≢◌, refl, ap, ◌∙◌, Bool, false, some,
  List, [], ◌∷◌, ◌++◌, Bytes, Lacks,
}
use gitlstreefs.Base.Outcome.{done, defined}
use gitlstreefs.Split.{split_string_using}
use gitlstreefs.Split.Fields.{
  fields, fields-append, fields-delimiter, fields-one, fields-cons, split_string_using-fields,
  split_string_using-two,
}
use gitlstreefs.Container.{leaf, DirectoryContainer, add}
use gitlstreefs.GitCatFile.{atoi}
use gitlstreefs.Paths.{is_absolute}
use gitlstreefs.GitTree.Load.{
  TreeFile, file_element, listed_file, mode_of, load_element, load_elements, load_line,
}

abbrev spaces : ℕ → Bytes → Bytes
spaces zero s = s
spaces (suc n) s = b' ' ∷ spaces n s

-- A line: mode, type and hash, then the size with `n` spaces before it, a tab and the path.
abbrev pub ls_tree_line : Bytes → Bytes → Bytes → ℕ → Bytes → Bytes
ls_tree_line mode type sha1 n rest =
    mode ++ (b' ' ∷ (type ++ (b' ' ∷ (sha1 ++ (b' ' ∷ spaces n rest)))))

fields-spaces : (n : ℕ) (s : Bytes) → fields b' ' (spaces n s) ≡ fields b' ' s
fields-spaces zero s = refl
fields-spaces (suc n) s = fields-delimiter b' ' (spaces n s) ∙ fields-spaces n s

fields-ls_tree_line :
    (mode type sha1 : Bytes) (n : ℕ) (rest : Bytes)
    → mode ≢ []
    → Lacks b' ' mode
    → type ≢ []
    → Lacks b' ' type
    → sha1 ≢ []
    → Lacks b' ' sha1
    → fields b' ' (ls_tree_line mode type sha1 n rest) ≡ mode ∷ type ∷ sha1 ∷ fields b' ' rest
fields-ls_tree_line mode type sha1 n rest m1 m2 t1 t2 s1 s2 =
    fields-append b' ' mode _ m1 m2
    ∙ ap (λ f. mode ∷ f) (fields-append b' ' type _ t1 t2)
    ∙ ap (λ f. mode ∷ type ∷ f) (fields-append b' ' sha1 _ s1 s2)
    ∙ ap (λ f. mode ∷ type ∷ sha1 ∷ f) (fields-spaces n rest)

ls_tree_line-ne-nil :
    (mode type sha1 : Bytes) (n : ℕ) (rest : Bytes)
    → mode ≢ []
    → ls_tree_line mode type sha1 n rest ≢ []
ls_tree_line-ne-nil [] type sha1 n rest h e = h refl
ls_tree_line-ne-nil (x ∷ mode) type sha1 n rest h e = cc e

load_line-fields :
    (line : Bytes) (fs : List Bytes) (c : DirectoryContainer TreeFile)
    → line ≢ []
    → fields b' ' line ≡ fs
    → load_line line c ≡ load_elements fs c
unfolding load_line
load_line-fields line fs c h e = rw (split_string_using-fields line b' ' h, e)

load_elements-four :
    (mode type sha1 rest size path : Bytes) (c : DirectoryContainer TreeFile)
    → split_string_using rest b'\t' false ≡ some (size ∷ path ∷ [])
    → load_elements (mode ∷ type ∷ sha1 ∷ rest ∷ []) c ≡ load_element mode sha1 (size ∷ path ∷ []) c
unfolding load_elements
load_elements-four mode type sha1 rest size path c e = rw e

load_element-relative :
    (mode sha1 size path : Bytes) (n : Bool × ℕ) (c : DirectoryContainer TreeFile)
    → atoi size ≡ done n
    → is_absolute path ≡ false
    → load_element mode sha1 (size ∷ path ∷ []) c
      ≡ defined (add c (b'/' ∷ path) (leaf (file_element (listed_file mode sha1 n))))
unfolding load_element
load_element-relative mode sha1 size path n c e f = rw (f, e)

listed_file-octal :
    (mode sha1 : Bytes) (attribute : ℕ) (number : Bool × ℕ)
    → strtol mode 8 ≡ (false, attribute)
    → attribute < 2 ^ 32
    → listed_file mode sha1 number
      ≡ record { attribute = attribute; sha1 = sha1; size = number; memory = none }
unfolding listed_file mode_of
listed_file-octal mode sha1 attribute number octal fits =
    let small : attribute % 2 ^ 32 ≡ attribute = omega arith in rw (octal, small) refl

-- A line of the listing whose mode, type and hash are not empty and hold no space, whose mode is an
-- octal number of 32 bits, whose size and path hold no space and no tab, with any number of spaces
-- before the size, and whose path does not begin with a slash, is loaded by adding a file to the
-- container under the path with a slash before it; the attribute of the file is this number, its
-- hash and size are those of the line, and it has no memory.
pub load_line-file :
    (mode type sha1 : Bytes) (n : ℕ) (size path : Bytes) (attribute : ℕ) (number : Bool × ℕ)
    (c : DirectoryContainer TreeFile)
    → mode ≢ []
    → Lacks b' ' mode
    → type ≢ []
    → Lacks b' ' type
    → sha1 ≢ []
    → Lacks b' ' sha1
    → Lacks b' ' (size ++ b'\t' ∷ path)
    → Lacks b'\t' size
    → Lacks b'\t' path
    → atoi size ≡ done number
    → strtol mode 8 ≡ (false, attribute)
    → attribute < 2 ^ 32
    → is_absolute path ≡ false
    → load_line (ls_tree_line mode type sha1 n (size ++ b'\t' ∷ path)) c
      ≡ defined (
          add c (b'/' ∷ path) (
            leaf (
              file_element
                (record { attribute = attribute; sha1 = sha1; size = number; memory = none }))))
load_line-file mode type sha1 n size path attribute number c m1 m2 t1 t2 s1 s2 free k1 k2 run octal
      fits relative =
    let rest = size ++ b'\t' ∷ path in
    load_line-fields (ls_tree_line mode type sha1 n rest) (mode ∷ type ∷ sha1 ∷ rest ∷ []) c
      (ls_tree_line-ne-nil mode type sha1 n rest m1)
      (fields-ls_tree_line mode type sha1 n rest m1 m2 t1 t2 s1 s2
        ∙ ap (λ f. mode ∷ type ∷ sha1 ∷ f) (fields-one b' ' rest free))
    ∙ load_elements-four mode type sha1 rest size path c
        (split_string_using-two b'\t' size path k1 k2)
    ∙ load_element-relative mode sha1 size path number c run relative
    ∙ ap (λ f. defined (add c (b'/' ∷ path) (leaf (file_element f))))
        (listed_file-octal mode sha1 attribute number octal fits)

-- A line of the listing whose mode, type and hash are not empty and hold no space, and where what
-- follows the hash and some spaces is a text that is not empty and holds no space, then a space,
-- then any text, as with a path that has a space, is passed over: the container stays as it is.
pub load_line_space :
    (mode type sha1 : Bytes) (n : ℕ) (first more : Bytes) (c : DirectoryContainer TreeFile)
    → mode ≢ []
    → Lacks b' ' mode
    → type ≢ []
    → Lacks b' ' type
    → sha1 ≢ []
    → Lacks b' ' sha1
    → first ≢ []
    → Lacks b' ' first
    → load_line (ls_tree_line mode type sha1 n (first ++ b' ' ∷ more)) c ≡ done c
unfolding load_elements
load_line_space mode type sha1 n first more c m1 m2 t1 t2 s1 s2 f1 f2 =
    let rest = first ++ b' ' ∷ more in
    let (q, qs, e) = fields-cons b' ' more in
    load_line-fields (ls_tree_line mode type sha1 n rest) (mode ∷ type ∷ sha1 ∷ first ∷ q ∷ qs) c
      (ls_tree_line-ne-nil mode type sha1 n rest m1)
      (fields-ls_tree_line mode type sha1 n rest m1 m2 t1 t2 s1 s2
        ∙ ap (λ f. mode ∷ type ∷ sha1 ∷ f)
            (fields-append b' ' first more f1 f2 ∙ ap (λ f. first ∷ f) e))
