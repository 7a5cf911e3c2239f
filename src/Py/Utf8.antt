-- ===== src/Py/Utf8.antt =====
-- `str.encode("utf-8")`: a surrogate has no encoding.
use proof_forge_near.Prelude.{
  ℕ, ◌+◌, ◌/◌, ◌%◌, ◌≡◌, refl, ◌&&◌, Option, none, some, [], ◌∷◌, ◌++◌, arith, if◌then◌else◌, ltb,
  leb, Text, Bytes, All, All-append,
}
use proof_forge_near.Py.Bytes.{IsByte}

-- A continuation byte: six bits of the code point.
abbrev tail_byte : ℕ → ℕ
tail_byte n = 128 + n % 64

unfoldable pub encode_char : ℕ → Option Bytes
encode_char c =
    if ltb c 128
    then some (c ∷ [])
    else if ltb c 2048
    then some ((192 + c / 64) ∷ tail_byte c ∷ [])
    else if leb 55296 c && leb c 57343
    then none
    else if ltb c 65536
    then some ((224 + c / 4096) ∷ tail_byte (c / 64) ∷ tail_byte c ∷ [])
    else if ltb c 1114112
    then some ((240 + c / 262144) ∷ tail_byte (c / 4096) ∷ tail_byte (c / 64) ∷ tail_byte c ∷ [])
    else none

join : Option Bytes → Option Bytes → Option Bytes
join none r = none
join (some b) none = none
join (some b) (some r) = some (b ++ r)

unfoldable pub encode : Text → Option Bytes
unfolding encode_char join
encode [] = some []
encode (c ∷ text) = join (encode_char c) (encode text)

encode_char-IsByte : (c : ℕ) (b : Bytes) → encode_char c ≡ some b → All IsByte b
unfolding encode_char
encode_char-IsByte c [] h = tt
encode_char-IsByte c (b₁ ∷ []) h = ground arith
encode_char-IsByte c (b₁ ∷ b₂ ∷ []) h = ground arith
encode_char-IsByte c (b₁ ∷ b₂ ∷ b₃ ∷ []) h = ground arith
encode_char-IsByte c (b₁ ∷ b₂ ∷ b₃ ∷ b₄ ∷ []) h = ground arith
encode_char-IsByte c (b₁ ∷ b₂ ∷ b₃ ∷ b₄ ∷ b₅ ∷ b) h = ground arith

join-IsByte :
    (o r : Option Bytes) (b : Bytes)
    → ((a : Bytes) → o ≡ some a → All IsByte a)
    → ((a : Bytes) → r ≡ some a → All IsByte a)
    → join o r ≡ some b
    → All IsByte b
unfolding join
join-IsByte none r b h k e = cc
join-IsByte (some x) none b h k e = cc
join-IsByte (some x) (some y) b h k e =
    let p : x ++ y ≡ b = cc in rw (← p) (All-append IsByte x y (h x refl) (k y refl))

-- An encoded text is made of bytes.
pub encode-IsByte : (text : Text) (b : Bytes) → encode text ≡ some b → All IsByte b
unfolding encode
encode-IsByte [] b h = let p : [] ≡ b = cc in rw (← p) tt
encode-IsByte (c ∷ text) b h =
    join-IsByte (encode_char c) (encode text) b (encode_char-IsByte c) (encode-IsByte text) h
