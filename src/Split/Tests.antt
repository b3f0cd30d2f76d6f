-- ===== src/Split/Tests.antt =====
-- The pieces of concrete texts, among them those of strutil_test.cc.
use gitlstreefs.Base.{◌≡◌, refl, true, false, some, List, [], ◌∷◌, Bytes, codes, All, Lacks}
use gitlstreefs.Split.{emit, split_loop, split_string_using}
use gitlstreefs.Split.Pieces.{
  pieces, tokens, join, FullButLast, split_string_using-pieces, split_string_using-join,
  split_string_using_compressed,
}

split_twice :
    split_string_using (codes "hoge  fuga c onaaaaaaaaxx") b' ' false
    ≡ some (codes "hoge" ∷ codes "" ∷ codes "fuga" ∷ codes "c" ∷ codes "onaaaaaaaaxx" ∷ [])
unfolding split_string_using split_loop emit
split_twice = refl

split_compressed :
    split_string_using (codes "hoge  fuga c") b' ' true
    ≡ some (codes "hoge" ∷ codes "fuga" ∷ codes "c" ∷ [])
unfolding split_string_using split_loop emit
split_compressed = refl

-- A delimiter at the end gives an empty token, even where empty tokens are left out.
split_compressed_end :
    split_string_using (codes "a b ") b' ' true ≡ some (codes "a" ∷ codes "b" ∷ codes "" ∷ [])
unfolding split_string_using split_loop emit
split_compressed_end = refl

split_string_using-pieces_example :
    split_string_using (codes "a  b") b' ' true ≡ some (tokens true (pieces b' ' (codes "a  b")))
split_string_using-pieces_example = split_string_using-pieces b'a' (codes "  b") b' ' true

split_string_using-join_example :
    (ts : List Bytes) × (split_string_using (codes "a  b") b' ' false ≡ some ts)
    × (join b' ' ts ≡ codes "a  b")
    × All (Lacks b' ') ts
split_string_using-join_example = split_string_using-join (codes "a  b") b' '

split_string_using_compressed_example :
    (ts : List Bytes) × (split_string_using (codes "a  b") b' ' true ≡ some ts)
    × FullButLast ts
    × All (Lacks b' ') ts
split_string_using_compressed_example = split_string_using_compressed (codes "a  b") b' '
