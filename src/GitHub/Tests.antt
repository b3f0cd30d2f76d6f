-- ===== src/GitHub/Tests.antt =====
-- A blob of github.com, and the theorem at it.
use gitlstreefs.Base.{
  ℕ, ◌-◌, ◌≡◌, ◌≢◌, refl, arith, All, Option, none, some, [], ◌∷◌, ◌++◌, Bytes, codes, lookup, take,
  drop, bytes_eq,
}
use gitlstreefs.Base.Outcome.{done}
use gitlstreefs.Fuse.{ok}
use gitlstreefs.FileCache.{Cache, cache_file_path}
use gitlstreefs.FileCache.Get.{IsHonest, IsMmap}
use gitlstreefs.Json.Value.{number_value, string_value, object_value, Members, end, member}
use gitlstreefs.Json.Lexer.{
  skip_whitespace, skip_valid, valid_whitespace, valid_number, obtain_number, consume,
  obtain_string, string_loop, escape, escaped_byte, assert_consume,
}
use gitlstreefs.Json.Parser.{
  parse, obtain_value, obtain_object, obtain_array, object_loop, array_loop, key_of,
}
use gitlstreefs.Base64.Decoding.{IsPlain}
use gitlstreefs.Base64.RoundTrip.{IsByte}
use gitlstreefs.GitHub.File.{FileElement, read, open_file}
use gitlstreefs.GitHub.Fetched.{IsBlob, read-open_file}

abbrev pub digit : Bytes → ℕ
digit [] = 0
digit (c ∷ s) = c - 48

abbrev pub size_of : ℕ → ℕ
size_of n = n

abbrev encoded : Bytes
encoded = codes "aGVs" ++ 10 ∷ codes "bG8="

abbrev blob_members : Members ℕ
blob_members = member (codes "sha") (string_value (codes "abc")) (
    member (codes "size") (number_value 5) (
      member (codes "content") (string_value encoded)
        (member (codes "encoding") (string_value (codes "base64")) end)))

-- The text is broken into lines, and the line break of the content is escaped.
abbrev reply_blob : Bytes
reply_blob =
    codes
      "{\n  \"sha\": \"abc\",\n  \"size\": 5,\n  \"content\": \"aGVs\\nbG8=\",\n  \"encoding\": \"base64\"\n}\n"

reply-reads : parse digit reply_blob ≡ done (object_value blob_members)
unfolding parse obtain_value obtain_object obtain_array object_loop array_loop key_of obtain_string
    string_loop escape escaped_byte skip_whitespace skip_valid valid_whitespace obtain_number
    consume valid_number assert_consume bytes_eq
reply-reads = refl

hello-IsByte : All IsByte (codes "hello")
hello-IsByte = omega arith

encoded-IsPlain : All IsPlain encoded
encoded-IsPlain = omega arith

reply-IsBlob : IsBlob digit size_of (codes "hello") reply_blob
unfolding bytes_eq
reply-IsBlob = record {
  members = blob_members;
  encoded = encoded;
  reads = reply-reads;
  encoding = refl;
  content = refl;
  bytes = hello-IsByte;
  plain = encoded-IsPlain;
  letters = refl;
}

abbrev mmap : Bytes → Option Bytes
mmap [] = none
mmap (c ∷ m) = some (c ∷ m)

whole : (m : Bytes) → m ≢ [] → mmap m ≡ some m
whole [] h = absurd (h refl)
whole (c ∷ m) h = refl

mmap-IsMmap : IsMmap mmap
mmap-IsMmap = record { empty = refl; whole = whole }

abbrev nothing_cached : Cache
nothing_cached = record { mapped_files = []; disk = [] }

abbrev contents : Bytes → Bytes
contents sha1 = codes "hello"

nothing_cached-IsHonest : IsHonest (codes "c/") contents nothing_cached
unfolding lookup
nothing_cached-IsHonest = record { mapped = λ n m e. cc e; stored = λ n p m q e. cc e }

path_abc : cache_file_path (codes "c/") (codes "abc") ≡ done (codes "c/ab/c")
unfolding cache_file_path
path_abc = refl

abbrev closed_file : FileElement
closed_file = record { attribute = 0x81a4; sha1 = codes "abc"; size = 5; memory = none }

read-open_file_example :
    (g : FileElement) × (c' : Cache) × (open_file digit size_of
        (codes "c/")
        mmap
        (λ url. reply_blob)
        (λ c. c)
        (codes "api")
        closed_file
        nothing_cached
      ≡ done (ok tt, g, c'))
    × IsHonest (codes "c/") contents c'
    × ((d : Cache) (size offset : ℕ)
        → read g d size offset ≡ done (ok (take size (drop offset (codes "hello"))), g, d))
read-open_file_example =
    read-open_file digit size_of (codes "c/") mmap (λ url. reply_blob) (λ c. c) (codes "api")
      contents closed_file nothing_cached (codes "c/ab/c") refl mmap-IsMmap nothing_cached-IsHonest
      nothing_cached-IsHonest (λ e. cc e) path_abc reply-IsBlob
