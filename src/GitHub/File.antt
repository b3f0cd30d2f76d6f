-- ===== src/GitHub/File.antt =====
-- `FileElement` of git-githubfs.cc. What `HttpFetch` gives for an address is a parameter, and so are
-- `mmap` and what other threads do to the cache while its lock is free.
use Prim.Native.Nat.{bit_or}
use gitlstreefs.Base.{
  ℕ, ◌+◌, ◌-◌, ◌^◌, leb, Option, none, some, ◌++◌, ◌==◌, if◌then◌else◌, Bytes, codes, lookup,
}
use gitlstreefs.Base.Outcome.{Outcome, done, defined, ◌>>=◌}
use gitlstreefs.Fuse.{eio, eperm, Result, ok, error, Stat, s_ifdir, s_ifreg, s_iflnk, FileClass}
use gitlstreefs.Fuse.Window.{window, link_text}
use gitlstreefs.FileCache
use gitlstreefs.FileCache.{Cache, cache_file_path}
use gitlstreefs.GitHub.{parse_blob}

-- `memory` is `memory_`, with `none` for the null pointer; `size` is a bit pattern.
pub record FileElement : Type 0 where
  pub attribute : ℕ
  pub sha1 : Bytes
  pub size : ℕ
  pub memory : Option Bytes

-- An `int` as a 64-bit `off_t`, both as bit patterns.
unfoldable pub extend_sign : ℕ → ℕ
extend_sign n = if leb (2 ^ 31) n then n + (2 ^ 64 - 2 ^ 32) else n

unfoldable pub getattr : FileElement → Cache → Stat → Outcome (Stat × FileElement × Cache)
unfolding extend_sign
getattr f c stbuf =
    let st = record stbuf { nlink = 1; size = extend_sign f.size } in
    done (
      if f.attribute == s_ifdir
          then record st { mode = bit_or s_ifdir 0x1ed; nlink = 2 }
          else if f.attribute == s_iflnk
          then record st { mode = bit_or s_iflnk 0x1a4 }
          else record st { mode = bit_or s_ifreg f.attribute },
      f,
      c,
    )

-- -1 without memory.
unfoldable pub read : FileElement → Cache → ℕ → ℕ → Outcome (Result Bytes × FileElement × Cache)
read f c size offset = elim f.memory [
  | none ↦ done (error eperm, f, c)
  | some memory ↦ done (ok (window memory size offset), f, c)
]

unfoldable pub release : FileElement → Cache → Outcome (Result (Unit {0}) × FileElement × Cache)
release f c =
    FileCache.release f.sha1 f.memory c >>= λ (r, c'). done (ok tt, record f { memory = none }, c')

module _ {N : Type 0} (strtof : Bytes → N) (to_size : N → ℕ) (cache_dir : Bytes)
    (mmap : Bytes → Option Bytes) (http_fetch : Bytes → Bytes) (others : Cache → Cache)
    (github_api_prefix : Bytes) where
  -- The fetch function.
  unfoldable pub fetch_blob : Bytes → Outcome Bytes
  fetch_blob sha1 =
      parse_blob strtof to_size (http_fetch (github_api_prefix ++ (codes "/git/blobs/" ++ sha1)))

  -- `cache().get`, which calls the fetch function only if the file is neither mapped nor on disk.
  unfoldable pub cache_get : Bytes → Cache → Outcome (Option Bytes × Cache)
  unfolding fetch_blob
  cache_get sha1 c = elim (lookup sha1 c.mapped_files) [
    | some m ↦ FileCache.get cache_dir mmap none others sha1 c
    | none ↦ cache_file_path cache_dir sha1 >>= λ path. elim (lookup path c.disk) [
      | some contents ↦ FileCache.get cache_dir mmap none others sha1 c
      | none ↦ fetch_blob sha1 >>= λ b. FileCache.get cache_dir mmap (some b) others sha1 c
    ]
  ]

  unfoldable pub maybe_cat_file_locked :
      FileElement → Cache → Outcome (Result (Unit {0}) × FileElement × Cache)
  unfolding cache_get
  maybe_cat_file_locked f c = elim f.memory [
    | some m ↦ done (ok tt, f, c)
    | none ↦ cache_get f.sha1 c >>= λ (m, c'). elim m [
      | none ↦ done (error eio, f, c')
      | some memory ↦ done (ok tt, record f { memory = some memory }, c')
    ]
  ]

  unfoldable pub open_file : FileElement → Cache → Outcome (Result (Unit {0}) × FileElement × Cache)
  unfolding maybe_cat_file_locked
  open_file f c = maybe_cat_file_locked f c

  unfoldable pub readlink : FileElement → Cache → ℕ → Outcome (Result Bytes × FileElement × Cache)
  unfolding maybe_cat_file_locked
  readlink f c size = maybe_cat_file_locked f c >>= λ (e, g, c'). elim e [
    | error n ↦ done (error n, g, c')
    | ok u ↦ (defined g.memory >>= λ memory. done (ok (link_text memory size), g, c'))
  ]

  unfoldable pub file_element : FileClass FileElement Cache
  file_element = record {
    getattr = getattr;
    open_file = open_file;
    read = read;
    readlink = readlink;
    release = release;
  }
