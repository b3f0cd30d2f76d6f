-- ===== src/FileCache/Tests.antt =====
-- The cache under "c/" at concrete names.
use gitlstreefs.Base.{
  ◌≡◌, ◌≢◌, refl, Option, none, some, [], ◌∷◌, Bytes, codes, lookup, insert, emplace, bytes_eq,
  false,
}
use gitlstreefs.Base.Outcome.{done, undefined}
use gitlstreefs.FileCache.{Cache, cache_file_path, store_file, map_file, get, release}
use gitlstreefs.FileCache.Get.{IsHonest, IsMmap, get-IsHonest}
use gitlstreefs.FileCache.Release.{release-get}

abbrev mmap : Bytes → Option Bytes
mmap [] = none
mmap (c ∷ m) = some (c ∷ m)

whole : (m : Bytes) → m ≢ [] → mmap m ≡ some m
whole [] h = absurd (h refl)
whole (c ∷ m) h = refl

mmap-IsMmap : IsMmap mmap
mmap-IsMmap = record { empty = refl; whole = whole }

abbrev nothing_cached : Cache
nothing_cached = record { mapped_files = []; disk = [] }

-- Every object is its own name.
abbrev contents : Bytes → Bytes
contents name = name

abbrev after_abc : Cache
after_abc = record {
  mapped_files = (codes "abc", codes "abc") ∷ [];
  disk = (codes "c/ab/c", codes "abc") ∷ [];
}

nothing_cached-IsHonest : IsHonest (codes "c/") contents nothing_cached
unfolding lookup
nothing_cached-IsHonest = record { mapped = λ n m e. cc e; stored = λ n p m q e. cc e }

path_abc : cache_file_path (codes "c/") (codes "abc") ≡ done (codes "c/ab/c")
unfolding cache_file_path
path_abc = refl

get-IsHonest_example :
    (r : Option Bytes × Cache) × (get
        (codes "c/")
        mmap
        (some (codes "abc"))
        (λ c. c)
        (codes "abc")
        nothing_cached
      ≡ done r)
    × (r.0 ≡ some (codes "abc"))
    × IsHonest (codes "c/") contents r.1
    × (lookup (codes "abc") r.1.mapped_files ≡ some (codes "abc"))
get-IsHonest_example =
    get-IsHonest (codes "c/") mmap contents (codes "abc") (λ c. c) nothing_cached (codes "c/ab/c")
      mmap-IsMmap nothing_cached-IsHonest nothing_cached-IsHonest (λ e. cc e) path_abc

release_missing : release (codes "abc") none nothing_cached ≡ undefined
unfolding release lookup
release_missing = refl

fetched_abc :
    get (codes "c/") mmap (some (codes "abc")) (λ c. c) (codes "abc") nothing_cached
    ≡ done (some (codes "abc"), after_abc)
unfolding get cache_file_path store_file map_file lookup insert emplace bytes_eq
fetched_abc = refl

release-get_example :
    (release (codes "abc") (some (codes "abc")) after_abc ≡ done (false, after_abc))
    × (lookup (codes "abc") after_abc.mapped_files ≡ some (codes "abc"))
release-get_example =
    release-get (codes "c/") mmap (codes "abc") (some (codes "abc")) (some (codes "abc")) (λ c. c)
      (codes "c/ab/c") (codes "abc") nothing_cached after_abc path_abc fetched_abc
