-- ===== src/NinjaFs/Mounted.antt =====
-- What `LoadDirectory` makes of a line of `ninja -t targets all`.
use gitlstreefs.Base.{◌≡◌, ◌≢◌, ap, ◌∙◌, false, none, List, [], ◌∷◌, ◌++◌, Bytes, Lacks}
use gitlstreefs.Base.Outcome.{defined, ◌>>=◌}
use gitlstreefs.Paths.{is_absolute}
use gitlstreefs.Split.Fields.{fields-append, fields-one, split_string_using-fields}
use gitlstreefs.Container.{leaf, DirectoryContainer, add}
use gitlstreefs.NinjaFs.{NinjaFile, ninja_target, load_target, load_targets}

line-ne-nil : (p q : Bytes) → p ++ b':' ∷ q ≢ []
line-ne-nil [] q e = cc e
line-ne-nil (x ∷ p) q e = cc e

load_target-two :
    (filename rule : Bytes) (fs : DirectoryContainer NinjaFile)
    → is_absolute filename ≡ false
    → load_target (filename ∷ rule ∷ []) fs
      ≡ defined (
          add fs
            (b'/' ∷ filename)
            (leaf (ninja_target (record { original_target_name = filename; buf = none }))))
unfolding load_target
load_target-two filename rule fs h = rw h

-- A line of `ninja -t targets all` whose target is a relative path that is not empty, where neither
-- the target nor the rule has a colon, is loaded by adding a file for the target to the container
-- under the target with a slash before it, before the lines that follow.
pub load_targets-line :
    (filename rule : Bytes) (lines : List Bytes) (fs : DirectoryContainer NinjaFile)
    → filename ≢ []
    → Lacks b':' filename
    → Lacks b':' rule
    → is_absolute filename ≡ false
    → load_targets ((filename ++ b':' ∷ rule) ∷ lines) fs ≡ (
        defined (
          add fs
            (b'/' ∷ filename)
            (leaf (ninja_target (record { original_target_name = filename; buf = none }))))
        >>= λ fs'. load_targets lines fs')
unfolding load_targets
load_targets-line filename rule lines fs n h k relative =
    let split =
      split_string_using-fields (filename ++ b':' ∷ rule) b':' (line-ne-nil filename rule) in
    let two =
      fields-append b':' filename rule n h ∙ ap (λ f. filename ∷ f) (fields-one b':' rule k) in
    rw (split, two, load_target-two filename rule fs relative)
