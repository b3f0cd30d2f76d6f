-- ===== src/CpioFs/Header.antt =====
-- What the accessors of `CpioHeader` find in an encoded header.
use gitlstreefs.Base.{
  ℕ, zero, suc, ◌≡◌, refl, sym, ap, ◌∙◌, ◌+◌, ◌-◌, ◌%◌, ◌^◌, ◌≤◌, ◌<◌, ◌==◌, true, false, not, ◌||◌,
  [], ◌∷◌, ◌++◌, append_assoc, ltb, if◌then◌else◌, arith, Bytes, bytes_eq, take, drop, length,
  length-append, take-append_length, drop-append_length, hex8, strtol, strtol-hex8,
}
use gitlstreefs.Base.Outcome.{done, undefined}
use gitlstreefs.CpioFs.{
  int32, number, mode, nlink, filesize, namesize, key_of_header, end_of, check_header, view,
  file_name, padded, contents_offset, contents, end_offset, next_header,
}
use gitlstreefs.CpioFs.Archive.{
  Entry, key_of_entry, zeros, fill_up, encode_header, encode_contents, encode_body, encode,
}

-- The contents stand at the least offset at or behind the end of the name that is a multiple of
-- four bytes from the start of the header.
pub padded-IsAligned : (n : ℕ) → (n ≤ padded n) × (padded n < n + 4) × ((110 + padded n) % 4 ≡ 0)
unfolding padded
padded-IsAligned n = (omega arith, omega arith, omega arith)

length-zeros : (n : ℕ) → length (zeros n) ≡ n
length-zeros zero = refl
length-zeros (suc n) = ap suc (length-zeros n)

int32-hex8 : (n : ℕ) → n < 2 ^ 32 → int32 (strtol (hex8 n) 16) ≡ n
int32-hex8 n h = let small : n % 2 ^ 32 ≡ n = omega arith in ap int32 (strtol-hex8 n h) ∙ small

module _ (e : Entry) (rest : Bytes) where
  pub mode-encode : e.e_mode < 2 ^ 32 → mode (encode_header e rest) ≡ e.e_mode
  unfolding number
  mode-encode h = int32-hex8 e.e_mode h

  pub nlink-encode : e.e_nlink < 2 ^ 32 → nlink (encode_header e rest) ≡ e.e_nlink
  unfolding number
  nlink-encode h = int32-hex8 e.e_nlink h

  pub key_of_header-encode :
      e.e_ino < 2 ^ 32
      → e.e_major < 2 ^ 32
      → e.e_minor < 2 ^ 32
      → key_of_header (encode_header e rest) ≡ key_of_entry e
  unfolding number
  key_of_header-encode h k l =
      simp (int32-hex8 e.e_ino h, int32-hex8 e.e_major k, int32-hex8 e.e_minor l)

  pub filesize-encode :
      length e.e_contents < 2 ^ 32 → filesize (encode_header e rest) ≡ length e.e_contents
  unfolding number
  filesize-encode h = int32-hex8 (length e.e_contents) h

  pub namesize-encode :
      suc (length e.e_name) < 2 ^ 32 → namesize (encode_header e rest) ≡ suc (length e.e_name)
  unfolding number
  namesize-encode h = int32-hex8 (suc (length e.e_name)) h

  pub end_of-encode : end_of (encode_header e rest) ≡ rest
  end_of-encode = refl

  pub check_header-encode : check_header (encode_header e rest) ≡ done true
  unfolding check_header bytes_eq
  check_header-encode = ground arith

  pub length-encode_header : length (encode_header e rest) ≡ 110 + length rest
  length-encode_header = omega arith

pub length-encode_body : (e : Entry) (rest : Bytes) → length rest ≤ length (encode_body e rest)
length-encode_body e rest =
    let fill = fill_up (length e.e_contents) in
    let a = length-append fill rest in
    let b = length-append e.e_contents (fill ++ rest) in
    let pad = 0 ∷ fill_up (110 + suc (length e.e_name)) in
    let c = length-append pad (encode_contents e rest) in
    let d = length-append e.e_name (pad ++ encode_contents e rest) in omega (arith, a, b, c, d)

-- The bytes behind the header where the body is made of parts.
view-encode :
    (e : Entry) (pre mid post : Bytes)
    → view (encode_header e (pre ++ (mid ++ post))) (length pre) (length mid) ≡ done mid
unfolding view
view-encode e pre mid post =
    let n = length-append pre (mid ++ post) in
    let m = length-append mid post in
    let fit : ltb (length (encode_header e (pre ++ (mid ++ post)))) (110 + length pre + length mid)
        ≡ false =
      ground (arith, length-encode_header e (pre ++ (mid ++ post)), n, m) in
    let found : take (length mid) (drop (length pre) (pre ++ (mid ++ post))) ≡ mid =
      ap (take (length mid)) (drop-append_length pre (mid ++ post)) ∙ take-append_length mid post in
    ap
      (λ b.
        if b
        then undefined
        else done (take (length mid) (drop (length pre) (pre ++ (mid ++ post)))))
      fit
    ∙ ap done found

name_part : Entry → Bytes
name_part e = e.e_name ++ 0 ∷ fill_up (110 + suc (length e.e_name))

module _ (e : Entry) (rest : Bytes)
    (small : length e.e_name + length e.e_contents + 8 < 2 ^ 31) where
  pub file_name-encode : file_name (encode e rest) ≡ done e.e_name
  unfolding file_name
  file_name-encode =
      let n = namesize-encode e (encode_body e rest) (omega arith) in
      let long : ltb (length (encode e rest)) 110 ≡ false =
        ground (arith, length-encode_header e (encode_body e rest)) in
      let positive : (suc (length e.e_name) == 0 || not (ltb (suc (length e.e_name)) (2 ^ 31)))
          ≡ false =
        ground arith in
      let less : suc (length e.e_name) - 1 ≡ length e.e_name = omega arith in
      rw (long, n, positive, less)
        (view-encode e [] e.e_name
          ((0 ∷ fill_up (110 + suc (length e.e_name))) ++ encode_contents e rest))

  length-name_part : length (name_part e) ≡ padded (suc (length e.e_name))
  unfolding padded name_part
  length-name_part =
      let fill = length-zeros ((4 - (110 + suc (length e.e_name)) % 4) % 4) in
      length-append e.e_name (0 ∷ fill_up (110 + suc (length e.e_name))) ∙ omega (arith, fill)

  contents_offset-encode : contents_offset (encode e rest) ≡ length (name_part e)
  unfolding contents_offset
  contents_offset-encode =
      ap padded (namesize-encode e (encode_body e rest) (omega arith)) ∙ sym length-name_part

  body-parts : encode_body e rest ≡ name_part e ++ encode_contents e rest
  unfolding name_part
  body-parts =
      sym
        (append_assoc e.e_name (0 ∷ fill_up (110 + suc (length e.e_name))) (encode_contents e rest))

  pub contents-encode : contents (encode e rest) ≡ done e.e_contents
  unfolding contents
  contents-encode =
      let f = filesize-encode e (encode_body e rest) (omega arith) in
      let fit : ltb (length e.e_contents) (2 ^ 31) ≡ true = ground arith in
      rw (f, fit, contents_offset-encode, body-parts)
        (view-encode e (name_part e) e.e_contents (fill_up (length e.e_contents) ++ rest))

  end_offset-encode :
      end_offset (encode e rest)
      ≡ done (length (name_part e ++ (e.e_contents ++ fill_up (length e.e_contents))))
  unfolding end_offset padded
  end_offset-encode =
      let f = filesize-encode e (encode_body e rest) (omega arith) in
      let aligned : length (name_part e) ≡ _ = length-name_part in
      let fill = length-zeros ((4 - length e.e_contents % 4) % 4) in
      let n = length-append (name_part e) (e.e_contents ++ fill_up (length e.e_contents)) in
      let m = length-append e.e_contents (fill_up (length e.e_contents)) in
      rw (f, contents_offset-encode) (ground (arith, aligned, fill, n, m))

  pub next_header-encode : next_header (encode e rest) ≡ done rest
  unfolding next_header
  next_header-encode =
      let parts : encode_body e rest
          ≡ (name_part e ++ (e.e_contents ++ fill_up (length e.e_contents))) ++ rest =
        body-parts
        ∙ ap (λ s. name_part e ++ s)
            (sym (append_assoc e.e_contents (fill_up (length e.e_contents)) rest))
        ∙ sym (append_assoc (name_part e) (e.e_contents ++ fill_up (length e.e_contents)) rest) in
      rw end_offset-encode (
        ap
          (λ s.
            done (drop (length (name_part e ++ (e.e_contents ++ fill_up (length e.e_contents)))) s))
          parts
        ∙ ap done (
            drop-append_length (name_part e ++ (e.e_contents ++ fill_up (length e.e_contents)))
              rest))
