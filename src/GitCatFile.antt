-- ===== src/GitCatFile.antt =====
-- git_cat_file.h and git_cat_file.cc: the header of a reply of `git cat-file --batch`, and
-- `GitCatFileProcess::Request`. The process and its pipes are parameters. A size outside of `int`
-- is undefined behaviour.
pub mod Header
pub mod Fetch
pub mod Request
mod Tests
use gitlstreefs.Base.{
  ℕ, zero, suc, ◌+◌, ◌-◌, ◌^◌, Bool, true, false, not, ◌&&◌, ◌||◌, Option, none, some, [], ◌∷◌,
  ◌++◌, ltb, ◌==◌, if◌then◌else◌, Bytes, bytes_eq, codes, find, substr, drop, get_elem?, length,
  strtol,
}
use gitlstreefs.Base.Outcome.{Outcome, done, undefined, out_of_fuel, ◌>>=◌}

-- `GitCatFileMetadata`; the size as whether it is negative, and its magnitude.
pub record GitCatFileMetadata : Type 0 where
  pub first_line_size : ℕ
  pub size : Bool × ℕ
  pub sha1 : Bytes
  pub type : Bytes

unfoldable pub atoi : Bytes → Outcome (Bool × ℕ)
atoi s = let (minus, n) = strtol s 10 in if ltb n (2 ^ 31) then done (minus, n) else undefined

-- The constructor, from the second space on.
unfoldable pub metadata_type : Bytes → ℕ → ℕ → Outcome GitCatFileMetadata
metadata_type header newline space1 =
    let short : Outcome GitCatFileMetadata = done record {
      first_line_size = suc newline;
      size = (true, 1);
      sha1 = substr header 0 space1;
      type = substr header (suc space1) (newline - space1 - 1);
    } in
    elim (find header b' ' (suc space1)) [
      | none ↦ short
      | some space2 ↦
          if ltb newline space2
          then short
          else if not (ltb space2 newline) || space1 == space2
          then undefined
          else atoi (drop (suc space2) header) >>= λ size. done (record {
            first_line_size = suc newline;
            size = size;
            sha1 = substr header 0 space1;
            type = substr header (suc space1) (space2 - space1 - 1);
          })
    ]

-- The constructor; `undefined` is a failed assertion.
unfoldable pub metadata : Bytes → Outcome GitCatFileMetadata
metadata header = elim (find header b'\n' 0) [
  | none ↦ undefined
  | some newline ↦ elim (find header b' ' 0) [
    | none ↦ undefined
    | some space1 ↦ if ltb space1 newline then metadata_type header newline space1 else undefined
  ]
]

-- What `Request` does: it throws `ObjectNotFoundException`, or returns the object.
pub data Reply : Type 0 where
  object_not_found : Reply
  object : Bytes → Reply

-- `metadata.size_ + metadata.first_line_size_ + 1`, where it is positive.
unfoldable pub reply_size : GitCatFileMetadata → Outcome ℕ
reply_size m =
    let total = m.size.1 + m.first_line_size + 1 in
    if m.size.0
    then done (suc m.first_line_size - m.size.1)
    else if ltb total (2 ^ 31)
    then done total
    else undefined

abbrev pub k_max_header_size : ℕ
k_max_header_size = 4096

-- `response[response.size() - 1] == '\n'`.
unfoldable pub ends_with_newline : Bytes → Bool
ends_with_newline response = elim (get_elem? response (length response - 1)) [
  | none ↦ false
  | some c ↦ c == b'\n'
]

-- `substr(first_line_size_, size_)`; a negative size becomes a huge one.
unfoldable pub contents_of : GitCatFileMetadata → Bytes → Bytes
contents_of m response =
    if m.size.0 && not (m.size.1 == 0)
    then drop m.first_line_size response
    else substr response m.first_line_size m.size.1

module _ {S : Type 0} (read : ℕ → S → Option Bytes × S) where
  -- `BidirectionalPopen::Read`; `read` is the system call, `none` its -1.
  unfoldable pub read_string : ℕ → S → Bytes × S
  read_string max_size s =
      let (r, s1) = read max_size s in (elim r [ none ↦ [] | some buf ↦ buf ], s1)

  -- The loop of `Request`: `total` is the size of the whole reply. Each read takes a unit of fuel.
  unfoldable pub fetch_loop : ℕ → ℕ → Bytes → S → Outcome (Bytes × S)
  unfolding read_string
  fetch_loop zero total response s = out_of_fuel
  fetch_loop (suc fuel) total response s =
      let (more, s1) = read_string (total - length response) s in
      let rest = fetch_loop fuel total (response ++ more) s1 in
      if total - length response == 0 then done (response, s) else rest

  -- `Request`; `write` is the system call.
  unfoldable pub request : (Bytes → S → S) → ℕ → Bytes → S → Outcome (Reply × S)
  request write fuel ref s = do
    let (response, s1) = read_string k_max_header_size (write (ref ++ b'\n' ∷ []) s)
    m ← metadata response
    if bytes_eq m.type (codes "missing") then done (object_not_found, s1) else do
      total ← reply_size m
      (whole, s2) ← fetch_loop fuel total response s1
      if ends_with_newline whole then done (object (contents_of m whole), s2) else undefined
