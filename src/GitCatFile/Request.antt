-- ===== src/GitCatFile/Request.antt =====
-- `GitCatFileProcess::Request` as a whole.
use gitlstreefs.Base.{
  ℕ, suc, ◌+◌, ◌-◌, ◌^◌, ◌<◌, ◌≡◌, refl, sym, ap, ◌∙◌, true, false, Option, some, [], ◌∷◌, ◌++◌,
  append_assoc, arith, ltb, Bytes, bytes_eq, codes, All, Lacks, get_elem?, take, length,
  length-append, drop-append_suc-length, take-append_length, decimal_value, IsDigit,
}
use gitlstreefs.Base.Outcome.{done}
use gitlstreefs.GitCatFile.{
  GitCatFileMetadata, metadata, object, reply_size, ends_with_newline, contents_of, read_string,
  fetch_loop, request,
}
use gitlstreefs.GitCatFile.Header.{first_line, found_reply}
use gitlstreefs.GitCatFile.Fetch.{metadata-found_reply, IsPipe, fetch_loop-Holds}

get_elem-last : (s : Bytes) (c : ℕ) → get_elem? (s ++ c ∷ []) (length s) ≡ some c
get_elem-last [] c = refl
get_elem-last (x ∷ s) c = get_elem-last s c

ends_with_newline-append : (s : Bytes) → ends_with_newline (s ++ b'\n' ∷ []) ≡ true
unfolding ends_with_newline
ends_with_newline-append s =
    let e : length (s ++ b'\n' ∷ []) - 1 ≡ length s = omega (arith, length-append s (b'\n' ∷ [])) in
    rw (e, ends_with_newline) (rw (get_elem-last s b'\n'))

reply_size_lem :
    (m : GitCatFileMetadata) (n f : ℕ)
    → m.size ≡ (false, n)
    → m.first_line_size ≡ f
    → n + f + 1 < 2 ^ 31
    → reply_size m ≡ done (n + f + 1)
unfolding reply_size
reply_size_lem m n f e1 e2 h =
    let fits : ltb (n + f + 1) (2 ^ 31) ≡ true = ground arith in rw (e1, e2, fits)

contents_of-append :
    (m : GitCatFileMetadata) (line contents : Bytes)
    → m.size ≡ (false, length contents)
    → m.first_line_size ≡ suc (length line)
    → contents_of m (line ++ b'\n' ∷ (contents ++ b'\n' ∷ [])) ≡ contents
unfolding contents_of
contents_of-append m line contents e f =
    rw (e, f)
      (ap (take (length contents)) (drop-append_suc-length line b'\n' (contents ++ b'\n' ∷ []))
        ∙ take-append_length contents (b'\n' ∷ []))

module _ {S : Type 0} (read : ℕ → S → Option Bytes × S) (write : Bytes → S → S) where
  request_lem :
      (fuel : ℕ) (ref : Bytes) (s : S) (response : Bytes) (s1 : S) (m : GitCatFileMetadata)
      (total : ℕ) (whole : Bytes) (s2 : S)
      → read 4096 (write (ref ++ b'\n' ∷ []) s) ≡ (some response, s1)
      → metadata response ≡ done m
      → bytes_eq m.type (codes "missing") ≡ false
      → reply_size m ≡ done total
      → fetch_loop read fuel total response s1 ≡ done (whole, s2)
      → ends_with_newline whole ≡ true
      → request read write fuel ref s ≡ done (object (contents_of m whole), s2)
  unfolding request read_string
  request_lem fuel ref s response s1 m total whole s2 e1 e2 e3 e4 e5 e6 =
      rw (e1, e2, e3, e4, e5, e6)

  -- Where git replies with the header of an object it has, the contents and a newline, the first
  -- read returns the header whole, the pipe delivers the rest in pieces of any sizes, the sizes fit
  -- in an `int` and the fuel exceeds what the first read left, `Request` returns exactly the
  -- contents, and leaves nothing of the reply in the pipe.
  pub request-found_reply :
      (Holds : S → Bytes → Type 0)
      → IsPipe read Holds
      → (fuel : ℕ) (ref : Bytes) (s s1 : S) (sha1 type : Bytes) (x : ℕ)
        (digits contents early late : Bytes)
      → Lacks b' ' sha1
      → Lacks b'\n' sha1
      → Lacks b' ' type
      → Lacks b'\n' type
      → bytes_eq type (codes "missing") ≡ false
      → All IsDigit (x ∷ digits)
      → decimal_value (x ∷ digits) ≡ length contents
      → length contents + suc (length (first_line sha1 type (x ∷ digits))) + 1 < 2 ^ 31
      → read 4096 (write (ref ++ b'\n' ∷ []) s)
        ≡ (some (found_reply sha1 type (x ∷ digits) early), s1)
      → Holds s1 late
      → early ++ late ≡ contents ++ b'\n' ∷ []
      → length late < fuel
      → (s' : S) × (request read write fuel ref s ≡ done (object contents, s')) × Holds s' []
  request-found_reply Holds pipe fuel ref s s1 sha1 type x digits contents early late h1 h2 k1 k2 ne
        d value small first held cut enough =
      let line = first_line sha1 type (x ∷ digits) in
      let response = found_reply sha1 type (x ∷ digits) early in
      let m : GitCatFileMetadata = record {
        first_line_size = suc (length line);
        size = (false, decimal_value (x ∷ digits));
        sha1 = sha1;
        type = type;
      } in
      let total = length contents + suc (length line) + 1 in
      let size_sum : length early + length late ≡ length contents + 1 =
        sym (length-append early late)
        ∙ ap (length {A = ℕ}) cut
        ∙ length-append contents (b'\n' ∷ []) in
      let (s', run, h') =
        fetch_loop-Holds read Holds pipe fuel total response late s1 held
          (omega (arith, length-append line (b'\n' ∷ early))) enough in
      let whole : response ++ late ≡ line ++ b'\n' ∷ (contents ++ b'\n' ∷ []) =
        append_assoc line (b'\n' ∷ early) late ∙ ap (λ w. line ++ b'\n' ∷ w) cut in
      (
        s',
        request_lem fuel ref s response s1 m total (response ++ late) s' first
              (metadata-found_reply sha1 type x digits early h1 h2 k1 k2 d (omega arith)) ne
              (reply_size_lem m (length contents) (suc (length line)) (ap (λ n. (false, n)) value)
                refl small)
              run
              (ap ends_with_newline
                  (whole ∙ sym (append_assoc line (b'\n' ∷ contents) (b'\n' ∷ [])))
                ∙ ends_with_newline-append (line ++ b'\n' ∷ contents))
            ∙ ap (λ c. done (object c, s'))
                (ap (contents_of m) whole
                  ∙ contents_of-append m line contents (ap (λ n. (false, n)) value) refl),
        h',
      )
