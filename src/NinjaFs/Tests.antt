-- ===== src/NinjaFs/Tests.antt =====
-- Targets of a build, with concrete commands and files outside.
use gitlstreefs.Base.{
  ℕ, suc, ◌≡◌, refl, ◌∷◌, [], some, none, false, Option, List, Bytes, codes, ◌++◌,
}
use gitlstreefs.Base.Outcome.{defined, ◌>>=◌}
use gitlstreefs.Paths.{is_absolute}
use gitlstreefs.Container.{leaf, empty_container, add}
use gitlstreefs.NinjaFs.{NinjaTarget, ninja_target, World, load_targets}
use gitlstreefs.NinjaFs.Mounted.{load_targets-line}

-- Every command succeeds, and counts; a file has the count as its contents.
abbrev popen : List Bytes → ℕ → Option (Bytes × ℕ × ℕ)
popen command n = some (codes "log", 0, suc n)

abbrev read_file : Bytes → ℕ → Option Bytes
read_file name n = some (n ∷ [])

abbrev target : NinjaTarget
target = record { original_target_name = codes "out/a"; buf = none }

abbrev world : World ℕ
world = record { log = []; outside = 4 }

relative : is_absolute (codes "out/a") ≡ false
unfolding is_absolute
relative = refl

load_targets-line_example :
    load_targets ((codes "out/a" ++ b':' ∷ codes " cc") ∷ []) empty_container ≡ (
      defined (add empty_container (b'/' ∷ codes "out/a") (leaf (ninja_target target))) >>= λ fs.
      load_targets [] fs)
load_targets-line_example =
    load_targets-line (codes "out/a") (codes " cc") [] empty_container (λ e. cc e) refl refl
      relative
