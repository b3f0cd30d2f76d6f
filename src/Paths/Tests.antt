-- ===== src/Paths/Tests.antt =====
-- The file names at concrete texts.
use gitlstreefs.Base.{◌≡◌, refl, ◌<◌, codes, length, Lacks}
use gitlstreefs.Paths.{rfind_slash, base_name, dir_name}
use gitlstreefs.Paths.Laws.{dir_name-base_name_append, base_name-Lacks, length-dir_name}

base_name_nested : base_name (codes "/hoge/fuga.txt") ≡ codes "fuga.txt"
unfolding base_name rfind_slash
base_name_nested = refl

base_name_plain : base_name (codes "fuga.txt") ≡ codes "fuga.txt"
unfolding base_name rfind_slash
base_name_plain = refl

dir_name_nested : dir_name (codes "/hoge/fuga.txt") ≡ codes "/hoge"
unfolding dir_name rfind_slash
dir_name_nested = refl

dir_name_root : dir_name (codes "/fuga.txt") ≡ codes ""
unfolding dir_name rfind_slash
dir_name_root = refl

dir_name-base_name_append_example :
    (dir_name (codes "/hoge/fuga") ≡ codes "/hoge")
    × (base_name (codes "/hoge/fuga") ≡ codes "fuga")
dir_name-base_name_append_example = dir_name-base_name_append (codes "/hoge") (codes "fuga") refl

base_name-Lacks_example : Lacks b'/' (base_name (codes "/hoge/fuga"))
base_name-Lacks_example = base_name-Lacks (codes "/hoge/fuga")

length-dir_name_example : length (dir_name (codes "/hoge/fuga")) < 10
length-dir_name_example = length-dir_name (codes "/hoge/fuga") (λ e. cc e)
