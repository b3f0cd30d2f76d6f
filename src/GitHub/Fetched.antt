-- ===== src/GitHub/Fetched.antt =====
-- What opening and reading a file of github.com gives.
use gitlstreefs.Base.{
  ℕ, ◌≡◌, ◌≢◌, refl, ap, ◌∙◌, inl, inr, Option, Option-cases, none, some, [], ◌++◌, All, Bytes,
  arith, take, drop, bytes_eq_refl, codes, lookup,
}
use gitlstreefs.Base.Outcome.{done, ◌>>=◌}
use gitlstreefs.Fuse.{ok}
use gitlstreefs.Fuse.Window.{window_lem}
use gitlstreefs.FileCache
use gitlstreefs.FileCache.{Cache, cache_file_path}
use gitlstreefs.FileCache.Get.{IsHonest, IsMmap, get-IsHonest}
use gitlstreefs.Json.Value.{string_value, object_value, Members, find_member, get, get_string}
use gitlstreefs.Json.Parser.{parse}
use gitlstreefs.Base64.Decoding.{IsPlain}
use gitlstreefs.Base64.RoundTrip.{base64decode-encode, IsByte, letters_of, encode}
use gitlstreefs.GitHub.{string_of, parse_blob}
use gitlstreefs.GitHub.File.{
  FileElement, read, fetch_blob, cache_get, maybe_cat_file_locked, open_file,
}

module _ {N : Type 0} (strtof : Bytes → N) (to_size : N → ℕ) where
  -- The parser makes of the server's reply for a blob an object with the encoding "base64" and a
  -- content whose letters are those of the encoded bytes.
  pub record IsBlob (contents reply : Bytes) : Type 0 where
    pub members : Members N
    pub encoded : Bytes
    pub reads : parse strtof reply ≡ done (object_value members)
    pub encoding : find_member (codes "encoding") members ≡ some (string_value (codes "base64"))
    pub content : find_member (codes "content") members ≡ some (string_value encoded)
    pub bytes : All IsByte contents
    pub plain : All IsPlain encoded
    pub letters : letters_of encoded ≡ letters_of (encode contents)

  pub string_of-member :
      (members : Members N) (key s : Bytes)
      → find_member key members ≡ some (string_value s)
      → string_of (object_value members) key ≡ done s
  unfolding string_of get get_string
  string_of-member members key s e = rw (e, string_of, get) refl

  parse_blob-IsBlob :
      (contents reply : Bytes)
      → IsBlob contents reply
      → parse_blob strtof to_size reply ≡ done contents
  unfolding parse_blob
  parse_blob-IsBlob contents reply b =
      rw
        (
          b.reads,
          string_of-member b.members (codes "encoding") (codes "base64") b.encoding,
          string_of-member b.members (codes "content") b.encoded b.content,
          bytes_eq_refl (codes "base64"),
        )
        (base64decode-encode contents b.encoded b.bytes b.plain b.letters)

  module _ (cache_dir : Bytes) (mmap : Bytes → Option Bytes) (http_fetch : Bytes → Bytes)
      (others : Cache → Cache) (github_api_prefix : Bytes) (contents : Bytes → Bytes) where
    abbrev pub blob_url : Bytes → Bytes
    blob_url sha1 = github_api_prefix ++ (codes "/git/blobs/" ++ sha1)

    fetch_blob-IsBlob :
        (sha1 : Bytes)
        → IsBlob (contents sha1) (http_fetch (blob_url sha1))
        → fetch_blob strtof to_size cache_dir mmap http_fetch others github_api_prefix sha1
          ≡ done (contents sha1)
    unfolding fetch_blob
    fetch_blob-IsBlob sha1 b = parse_blob-IsBlob (contents sha1) (http_fetch (blob_url sha1)) b

    cache_get-fetches :
        (sha1 path : Bytes) (c : Cache)
        → lookup sha1 c.mapped_files ≡ none
        → cache_file_path cache_dir sha1 ≡ done path
        → lookup path c.disk ≡ none
        → cache_get strtof to_size cache_dir mmap http_fetch others github_api_prefix sha1 c ≡ (
            fetch_blob strtof to_size cache_dir mmap http_fetch others github_api_prefix sha1
            >>= λ m. FileCache.get cache_dir mmap (some m) others sha1 c)
    unfolding cache_get
    cache_get-fetches sha1 path c missing p absent = ground (arith, missing, p, absent)

    cache_get-fetched :
        (sha1 path : Bytes) (c : Cache)
        → cache_file_path cache_dir sha1 ≡ done path
        → IsBlob (contents sha1) (http_fetch (blob_url sha1))
        → cache_get strtof to_size cache_dir mmap http_fetch others github_api_prefix sha1 c
          ≡ FileCache.get cache_dir mmap (some (contents sha1)) others sha1 c
    unfolding cache_get FileCache.get
    cache_get-fetched sha1 path c p b = elim (Option-cases (lookup sha1 c.mapped_files)) [
      | inr (m, there) ↦ ground (arith, there)
      | inl missing ↦ elim (Option-cases (lookup path c.disk)) [
        | inr (m, stored) ↦ ground (arith, missing, p, stored)
        | inl absent ↦
            cache_get-fetches sha1 path c missing p absent
            ∙ ap (λ o. o >>= λ m. FileCache.get cache_dir mmap (some m) others sha1 c)
                (fetch_blob-IsBlob sha1 b)
      ]
    ]

    open_file-got :
        (f : FileElement) (c c' : Cache) (m : Option Bytes) (contents : Bytes)
        → f.memory ≡ none
        → cache_get strtof to_size cache_dir mmap http_fetch others github_api_prefix f.sha1 c
          ≡ done (m, c')
        → m ≡ some contents
        → open_file strtof to_size cache_dir mmap http_fetch others github_api_prefix f c
          ≡ done (ok tt, record f { memory = some contents }, c')
    unfolding open_file maybe_cat_file_locked
    open_file-got f c c' m contents closed runs came = rw (closed, runs, came) refl

    -- Where all that is cached belongs to its hash, other threads keep it so, `mmap` maps whole files,
    -- and the parser makes of the server's reply an object with the encoding "base64" and a content
    -- whose letters of the alphabet are those of the blob in base 64, with any line breaks and padding
    -- among them, opening a file that is not open and whose blob is not empty succeeds, and any read
    -- then gives the bytes of the blob from the offset on, as many as are asked for and there.
    pub read-open_file :
        (f : FileElement) (c : Cache) (path : Bytes)
        → f.memory ≡ none
        → IsMmap mmap
        → IsHonest cache_dir contents c
        → IsHonest cache_dir contents (others c)
        → contents f.sha1 ≢ []
        → cache_file_path cache_dir f.sha1 ≡ done path
        → IsBlob (contents f.sha1) (http_fetch (blob_url f.sha1))
        → (g : FileElement) × (c' : Cache) × (open_file strtof to_size cache_dir mmap http_fetch
              others github_api_prefix f c
            ≡ done (ok tt, g, c'))
          × IsHonest cache_dir contents c'
          × ((d : Cache) (size offset : ℕ)
              → read g d size offset ≡ done (ok (take size (drop offset (contents f.sha1))), g, d))
    unfolding read
    read-open_file f c path closed mm h h' full p b =
        let (r, runs, came, honest, there) =
          get-IsHonest cache_dir mmap contents f.sha1 others c path mm h h' full p in
        (
          record f { memory = some (contents f.sha1) },
          r.1,
          open_file-got f c (r.1) (r.0) (contents f.sha1) closed
              (cache_get-fetched f.sha1 path c p b ∙ runs) came,
          honest,
          λ d size offset.
              ap (λ w. done (ok w, record f { memory = some (contents f.sha1) }, d))
                (window_lem (contents f.sha1) size offset),
        )
