-- ===== src/GitCatFile/Fetch.antt =====
-- The header and the loop of `Request`.
use gitlstreefs.Base.{
  ℕ, zero, suc, ◌+◌, ◌-◌, ◌^◌, ◌<◌, ◌≡◌, ◌≢◌, refl, sym, ap, ◌∙◌, true, false, not, ◌||◌, Option,
  some, [], ◌∷◌, ◌++◌, append_assoc, append-nil, arith, ltb, ◌==◌, Bytes, All, Lacks, find, substr,
  drop, length, length-append, strtol, decimal_value, IsDigit, strtol-digits,
}
use gitlstreefs.Base.Outcome.{done, out_of_fuel}
use gitlstreefs.GitCatFile.{atoi, metadata_type, metadata, read_string, fetch_loop}
use gitlstreefs.GitCatFile.Header.{
  first_line, found_reply, Lacks-first_line, find_newline, find_first_space, find_second_space,
  length-first_line, substr_type, substr_sha1, drop_digits,
}

metadata_lem :
    (h : Bytes) (newline space1 space2 n : ℕ)
    → find h b'\n' 0 ≡ some newline
    → find h b' ' 0 ≡ some space1
    → find h b' ' (suc space1) ≡ some space2
    → space1 < space2
    → space2 < newline
    → strtol (drop (suc space2) h) 10 ≡ (false, n)
    → n < 2 ^ 31
    → metadata h
      ≡ done (record {
        first_line_size = suc newline;
        size = (false, n);
        sha1 = substr h 0 space1;
        type = substr h (suc space1) (space2 - space1 - 1);
      })
unfolding metadata metadata_type atoi
metadata_lem h newline space1 space2 n e1 e2 e3 lt1 lt2 run small =
    let a : ltb space1 newline ≡ true = ground arith in
    let b : ltb newline space2 ≡ false = ground arith in
    let c : (not (ltb space2 newline) || space1 == space2) ≡ false = ground arith in
    let d : ltb n (2 ^ 31) ≡ true = ground arith in ground (arith, e1, e2, e3, a, b, c, run, d)

-- Of a reply that begins with a hash and a type without spaces and newlines and a size in decimal
-- digits below 2^31, the constructor of the metadata reads off the hash, the type, the size and the
-- length of the first line with its newline.
pub metadata-found_reply :
    (sha1 type : Bytes) (x : ℕ) (digits rest : Bytes)
    → Lacks b' ' sha1
    → Lacks b'\n' sha1
    → Lacks b' ' type
    → Lacks b'\n' type
    → All IsDigit (x ∷ digits)
    → decimal_value (x ∷ digits) < 2 ^ 31
    → metadata (found_reply sha1 type (x ∷ digits) rest)
      ≡ done (record {
        first_line_size = suc (length (first_line sha1 type (x ∷ digits)));
        size = (false, decimal_value (x ∷ digits));
        sha1 = sha1;
        type = type;
      })
metadata-found_reply sha1 type x digits rest h1 h2 k1 k2 d small =
    let h = found_reply sha1 type (x ∷ digits) rest in
    let free = Lacks-first_line sha1 type (x ∷ digits) h2 k2 d in
    let long = length-first_line sha1 type (x ∷ digits) in
    let e : suc (length sha1) + length type - length sha1 - 1 ≡ length type = omega arith in
    let number =
      ap (λ s. strtol s 10) (drop_digits sha1 type (x ∷ digits) rest)
      ∙ strtol-digits x b'\n' digits rest d refl small in
    metadata_lem h (length (first_line sha1 type (x ∷ digits))) (length sha1)
      (suc (length sha1) + length type) (decimal_value (x ∷ digits))
      (find_newline sha1 type (x ∷ digits) rest free)
      (find_first_space sha1 type (x ∷ digits) rest h1)
      (find_second_space sha1 type (x ∷ digits) rest k1) (omega arith) (omega arith) number small
    ∙ rw (e, substr_type sha1 type (x ∷ digits) rest, substr_sha1 sha1 type (x ∷ digits) rest)

length_positive : (b : Bytes) → b ≢ [] → 0 < length b
length_positive [] h = absurd (h refl)
length_positive (x ∷ b) h = omega arith

-- What the documentation of `read` says for a pipe: while something is left to be read, the front
-- of it is returned, and is not empty. `Holds s t`: `t` is left, or still to be written.
pub record IsPipe {S : Type 0} (read : ℕ → S → Option Bytes × S) (Holds : S → Bytes → Type 0)
    : Type 0 where
  pub deliver :
      (k : ℕ) (s : S) (t : Bytes)
      → 0 < k
      → t ≢ []
      → Holds s t
      → (b : Bytes) × (t' : Bytes) × (s' : S) × (read k s ≡ (some b, s'))
        × (b ≢ [])
        × (b ++ t' ≡ t)
        × Holds s' t'

module _ {S : Type 0} (read : ℕ → S → Option Bytes × S) where
  fetch_done :
      (fuel total : ℕ) (response : Bytes) (s : S)
      → total ≡ length response
      → fetch_loop read (suc fuel) total response s ≡ done (response, s)
  unfolding fetch_loop
  fetch_done fuel total response s e =
      let none_left : (total - length response == 0) ≡ true = ground arith in rw none_left

  fetch_more :
      (fuel total : ℕ) (response b : Bytes) (s s' : S)
      → length response < total
      → read (total - length response) s ≡ (some b, s')
      → fetch_loop read (suc fuel) total response s ≡ fetch_loop read fuel total (response ++ b) s'
  unfolding fetch_loop read_string
  fetch_more fuel total response b s s' h e =
      let more : (total - length response == 0) ≡ false = ground arith in rw (more, e)

  -- The loop reads what the pipe still holds of the reply, however it is cut into pieces, with fuel
  -- above its length.
  pub fetch_loop-Holds :
      (Holds : S → Bytes → Type 0)
      → IsPipe read Holds
      → (fuel total : ℕ) (response t : Bytes) (s : S) → Holds s t
      → total ≡ length response + length t
      → length t < fuel
      → (s' : S) × (fetch_loop read fuel total response s ≡ done (response ++ t, s')) × Holds s' []
  fetch_loop-Holds Holds pipe zero total response t s h e k = absurd (omega arith)
  fetch_loop-Holds Holds pipe (suc fuel) total response [] s h e k =
      (s, fetch_done fuel total response s (omega arith) ∙ rw (append-nil response), h)
  fetch_loop-Holds Holds pipe (suc fuel) total response (c ∷ r) s h e k =
      let (b, t, s', run, some_read, cut, h') =
        pipe.deliver (total - length response) s (c ∷ r) (omega arith) (λ e. cc e) h in
      let long : length b + length t ≡ suc (length r) =
        sym (length-append b t) ∙ ap (length {A = ℕ}) cut in
      let positive = length_positive b some_read in
      let (s'', rest, h'') =
        fetch_loop-Holds Holds pipe fuel total (response ++ b) t s' h'
          (omega (arith, length-append response b)) (omega arith) in
      (
        s'',
        fetch_more fuel total response b s s' (omega arith) run
            ∙ rest
            ∙ ap (λ w. done (w, s'')) (append_assoc response b t ∙ ap (λ w. response ++ w) cut),
        h'',
      )

  -- Where the reply is not complete and the pipe is at its end, so that `read` returns no bytes and
  -- nothing changes, the loop of `Request` does not end on any fuel.
  pub fetch_loop-closed :
      (fuel total : ℕ) (response : Bytes) (s : S)
      → length response < total
      → read (total - length response) s ≡ (some [], s)
      → fetch_loop read fuel total response s ≡ out_of_fuel
  unfolding fetch_loop read_string
  fetch_loop-closed zero total response s h e = refl
  fetch_loop-closed (suc fuel) total response s h e =
      fetch_more fuel total response [] s s h e
      ∙ ap (λ r. fetch_loop read fuel total r s) (append-nil response)
      ∙ fetch_loop-closed fuel total response s h e
