-- ===== src/Rpc/Wire/Words.antt =====
-- Round trips of the fixed-width words, at any place of a buffer.
use proof_forge_near.Prelude.{
  ◌%◌, ℕ, ◌+◌, ◌-◌, ◌^◌, ◌≤◌, ◌<◌, ◌≡◌, refl, Bool, false, Bool-cases, inl, inr, ◌++◌,
  if◌then◌else◌, ltb, ltb→lt, lt→ltb, arith, Bytes, length, length-append,
}
use proof_forge_near.Py.Result.{ok, err, ◌>>=◌}
use proof_forge_near.Py.Int.{ℤ, pos, negsuc, low_bits}
use proof_forge_near.Py.Bytes.{to_le, from_le, length-to_le, from_le-to_le, slice-append}
use proof_forge_near.Rpc.Exc.{struct_error, value_error}
use proof_forge_near.Rpc.Wire.{
  u64, encode_u64_le, decode_u64_le, encode_u256_le, decode_u256_le, encode_i64_le, decode_i64_le,
}

module _ (pre b post : Bytes) where
  room : length pre + length b ≤ length (pre ++ (b ++ post))
  room = omega (arith, length-append pre (b ++ post), length-append b post)

  pub decode_u64_le-append :
      length b ≡ 8 → decode_u64_le (pre ++ (b ++ post)) (length pre) ≡ ok (from_le b)
  unfolding decode_u64_le
  decode_u64_le-append e =
      let fits : ltb (length (pre ++ (b ++ post))) (length pre + 8) ≡ false =
        ground (arith, room) in
      rw fits (rw (← e) (rw (slice-append pre b post)))

  decode_u256_le-append :
      length b ≡ 32 → decode_u256_le (pre ++ (b ++ post)) (length pre) ≡ ok (from_le b)
  unfolding decode_u256_le
  decode_u256_le-append e =
      let fits : ltb (length (pre ++ (b ++ post))) (length pre + 32) ≡ false =
        ground (arith, room) in
      rw fits (rw (← e) (rw (slice-append pre b post)))

pub low_bits-lt : (n : ℤ) → low_bits n 64 < 2 ^ 64
low_bits-lt (pos n) = omega arith
low_bits-lt (negsuc n) = omega arith

-- A word that fits is packed.
pub u64_fits : (n : ℕ) → n < 2 ^ 64 → u64 (pos n) ≡ ok (to_le 8 n)
unfolding u64
u64_fits n h = rw (lt→ltb n (256 ^ 8) h)

module _ (pre post : Bytes) where
  decode_u64_le-to_le :
      (n : ℕ) → n < 2 ^ 64 → decode_u64_le (pre ++ (to_le 8 n ++ post)) (length pre) ≡ ok n
  decode_u64_le-to_le n h =
      rw (decode_u64_le-append pre (to_le 8 n) post (length-to_le 8 n)) (rw (from_le-to_le 8 n h))

  -- Decoding at the place of the written word gives what was encoded, modulo 2 ^ 64: every integer
  -- is encoded, a negative one or one that is too large by its low 64 bits.
  pub decode_u64_le-encode_u64_le :
      (n : ℤ)
      → (encode_u64_le n >>= λ b. decode_u64_le (pre ++ (b ++ post)) (length pre))
        ≡ ok (low_bits n 64)
  unfolding encode_u64_le
  decode_u64_le-encode_u64_le n =
      rw (u64_fits (low_bits n 64) (low_bits-lt n))
        (decode_u64_le-to_le (low_bits n 64) (low_bits-lt n))

  -- The range of a signed word of 64 bits.
  abbrev pub fits_i64 : ℤ → Bool
  fits_i64 (pos n) = ltb n (2 ^ 63)
  fits_i64 (negsuc n) = ltb n (2 ^ 63)

  -- A signed integer of 64 bits comes back with its sign, and any other raises `struct.error`.
  pub decode_i64_le-encode_i64_le :
      (n : ℤ)
      → (encode_i64_le n >>= λ b. decode_i64_le (pre ++ (b ++ post)) (length pre))
        ≡ (if fits_i64 n then ok n else err struct_error)
  unfolding encode_i64_le decode_i64_le
  decode_i64_le-encode_i64_le (pos n) = elim (Bool-cases (ltb n (2 ^ 63))) [
    | inl h ↦ rw h (rw (decode_u64_le-to_le n (omega (arith, ltb→lt n _ h))) (rw h))
    | inr h ↦ rw h
  ]
  decode_i64_le-encode_i64_le (negsuc n) = elim (Bool-cases (ltb n (2 ^ 63))) [
    | inl h ↦ rw h (rw (decode_u64_le-to_le (2 ^ 64 - 1 - n) (omega arith)) (ground (arith, h)))
    | inr h ↦ rw h
  ]

  abbrev pub fits_u256 : ℤ → Bool
  fits_u256 (pos n) = ltb n (2 ^ 256)
  fits_u256 (negsuc n) = false

  -- An unsigned integer of 256 bits comes back, and any other raises `ValueError`.
  pub decode_u256_le-encode_u256_le :
      (n : ℤ)
      → (encode_u256_le n >>= λ b.
          (decode_u256_le (pre ++ (b ++ post)) (length pre) >>= λ m. ok (pos m)))
        ≡ (if fits_u256 n then ok n else err value_error)
  unfolding encode_u256_le
  decode_u256_le-encode_u256_le (negsuc n) = refl
  decode_u256_le-encode_u256_le (pos n) = elim (Bool-cases (ltb n (2 ^ 256))) [
    | inl h ↦ rw h (
        rw (decode_u256_le-append pre (to_le 32 n) post (length-to_le 32 n))
          (rw (from_le-to_le 32 n (ltb→lt n (256 ^ 32) h))))
    | inr h ↦ rw h
  ]

pub encode_u64_le-pos : (n : ℕ) → encode_u64_le (pos n) ≡ ok (to_le 8 (n % 2 ^ 64))
unfolding encode_u64_le
encode_u64_le-pos n = u64_fits (n % 2 ^ 64) (omega arith)
