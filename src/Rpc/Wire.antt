-- ===== src/Rpc/Wire.antt =====
-- The wire helpers of near_rpc.py: `struct.pack`, Borsh and the account id words. Offsets into a
-- buffer are not negative, as in every call.
pub mod Words
pub mod Principal
use proof_forge_near.Prelude.{
  ℕ, zero, suc, ◌+◌, ◌-◌, ◌*◌, ◌^◌, Bool, true, false, not, ◌&&◌, Option, none, some, List, [], ◌∷◌,
  ◌++◌, if◌then◌else◌, ltb, leb, Text, Bytes, length, take, drop, replicate,
}
use proof_forge_near.Py.Result.{Result, ok, err, ◌>>=◌, or_raise}
use proof_forge_near.Py.Int.{ℤ, pos, negsuc, low_bits, signed}
use proof_forge_near.Py.Bytes.{to_le, from_le, slice}
use proof_forge_near.Py.Utf8.{encode}
use proof_forge_near.Rpc.Exc.{Exc, struct_error, overflow_error, value_error, unicode_error}

-- An unsigned field of `w` bytes; `e` is what the packing function raises when it does not fit.
unfoldable pub pack_unsigned : ℕ → Exc → ℤ → Result Exc Bytes
pack_unsigned w e (pos n) = if ltb n (256 ^ w) then ok (to_le w n) else err e
pack_unsigned w e (negsuc n) = err e

-- `struct.pack("<I", n)`
unfoldable pub pack_u32 : ℤ → Result Exc Bytes
unfolding pack_unsigned
pack_u32 = pack_unsigned 4 struct_error

-- `struct.pack("<Q", n)`
unfoldable pub u64 : ℤ → Result Exc Bytes
unfolding pack_unsigned
u64 = pack_unsigned 8 struct_error

-- `int(n).to_bytes(16, "little")`
unfoldable pub u128 : ℤ → Result Exc Bytes
unfolding pack_unsigned
u128 = pack_unsigned 16 overflow_error

unfoldable pub borsh_bytes : Bytes → Result Exc Bytes
unfolding pack_u32
borsh_bytes b = do size ← pack_u32 (pos (length b)); ok (size ++ b)

unfoldable pub borsh_string : Text → Result Exc Bytes
unfolding pack_u32 encode
borsh_string s = do
  b ← or_raise (encode s) unicode_error
  size ← pack_u32 (pos (length b))
  ok (size ++ b)

unfoldable pub encode_u64_le : ℤ → Result Exc Bytes
unfolding u64
encode_u64_le n = u64 (pos (low_bits n 64))

unfoldable pub encode_u32_le : ℤ → Result Exc Bytes
unfolding pack_u32
encode_u32_le n = pack_u32 (pos (low_bits n 32))

unfoldable pub encode_u256_le : ℤ → Result Exc Bytes
unfolding pack_unsigned
encode_u256_le n = pack_unsigned 32 value_error n

unfoldable pub decode_u256_le : Bytes → ℕ → Result Exc ℕ
decode_u256_le b offset =
    if ltb (length b) (offset + 32) then err value_error else ok (from_le (slice offset 32 b))

-- `struct.pack("<q", n)`
unfoldable pub encode_i64_le : ℤ → Result Exc Bytes
encode_i64_le (pos n) = if ltb n (2 ^ 63) then ok (to_le 8 n) else err struct_error
encode_i64_le (negsuc n) =
    if ltb n (2 ^ 63) then ok (to_le 8 (2 ^ 64 - 1 - n)) else err struct_error

-- `struct.unpack_from("<Q", b, offset)[0]`
unfoldable pub decode_u64_le : Bytes → ℕ → Result Exc ℕ
decode_u64_le b offset =
    if ltb (length b) (offset + 8) then err struct_error else ok (from_le (slice offset 8 b))

-- `struct.unpack_from("<q", b, offset)[0]`
unfoldable pub decode_i64_le : Bytes → ℕ → Result Exc ℤ
unfolding decode_u64_le
decode_i64_le b offset = do n ← decode_u64_le b offset; ok (signed 63 n)

-- The words `out[1:]`: `int.from_bytes(body[i * 8 : (i + 1) * 8], "little")` for `i`, `i + 1`, ….
unfoldable pub body_words : ℕ → ℕ → Bytes → List ℕ
body_words zero i body = []
body_words (suc k) i body = from_le (slice (i * 8) 8 body) ∷ body_words k (i + 1) body

-- `b"".join(struct.pack("<Q", w) for w in out)`
unfoldable pub join_words : List ℕ → Result Exc Bytes
unfolding u64
join_words [] = ok []
join_words (w ∷ ws) = do b ← u64 (pos w); rest ← join_words ws; ok (b ++ rest)

unfoldable pub encode_principal_account_id : Text → Result Exc Bytes
unfolding encode body_words join_words
encode_principal_account_id account_id = do
  raw ← or_raise (encode account_id) unicode_error
  if leb 2 (length raw) && leb (length raw) 64
      then join_words (length raw ∷ body_words 8 0 (raw ++ replicate (64 - length raw) 0))
      else err value_error
