-- ===== src/Base64/Tests.antt =====
-- The decoder at a few texts, and the theorem at a text with a line break.
use gitlstreefs.Base.{◌≡◌, refl, [], ◌∷◌, arith, All, codes, ◌++◌, Bytes}
use gitlstreefs.Base.Outcome.{done}
use gitlstreefs.Base64.{lookup, next_value, gather, emit_bytes, doit, base64decode}
use gitlstreefs.Base64.Decoding.{IsPlain}
use gitlstreefs.Base64.RoundTrip.{base64decode-encode, IsByte}

abbrev broken : Bytes
broken = codes "aGVs" ++ 10 ∷ codes "bG8="

hello : base64decode broken ≡ done (codes "hello")
unfolding base64decode doit gather next_value lookup emit_bytes
hello = refl

three_paddings : base64decode (codes "A===") ≡ done []
unfolding base64decode doit gather next_value lookup emit_bytes
three_paddings = refl

-- A zero counts as a letter of value 64.
zero_counts : base64decode (0 ∷ codes "AAA") ≡ done (0 ∷ 0 ∷ 0 ∷ [])
unfolding base64decode doit gather next_value lookup emit_bytes
zero_counts = refl

hello-IsByte : All IsByte (codes "hello")
hello-IsByte = omega arith

broken-IsPlain : All IsPlain broken
broken-IsPlain = omega arith

base64decode-encode_example : base64decode broken ≡ done (codes "hello")
base64decode-encode_example =
    base64decode-encode (codes "hello") broken hello-IsByte broken-IsPlain refl
