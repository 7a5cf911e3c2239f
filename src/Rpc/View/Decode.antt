-- ===== src/Rpc/View/Decode.antt =====
-- The decoded results of views.
use proof_forge_near.Prelude.{
  ℕ, zero, suc, ◌≡◌, refl, some, if◌then◌else◌, ltb, arith, Text, Bytes, codes, length, replicate,
  length-replicate, take,
}
use proof_forge_near.Py.Result.{ok, err, ◌>>=◌}
use proof_forge_near.Py.Int.{pos, signed}
use proof_forge_near.Py.Bytes.{from_le, slice}
use proof_forge_near.Py.Value.{int, dict, Entries, get}
use proof_forge_near.Rpc.Exc.{near_rpc_error, short_result, overflow_error}
use proof_forge_near.Rpc.Dynamic.{subscript, to_bytes, zeros_of, max_bytes}
use proof_forge_near.Rpc.Wire.{decode_u64_le, decode_i64_le}
use proof_forge_near.Rpc.View.{view_bytes, u64_of, u64_pair_of, i64_pair_of}

module _ (account method : Text) (raw : Bytes) where
  u64_of_lem : u64_of account method raw ≡ (
      if ltb (length raw) 8
      then err (near_rpc_error (short_result account method 8 raw))
      else ok (from_le (slice 0 8 raw)))
  unfolding u64_of decode_u64_le
  u64_of_lem = ground arith

  -- Two words are the values of the bytes 0 to 7 and 8 to 15, unsigned or in two's complement, and
  -- a result of fewer than 16 bytes is the client's error and never the decoder's.
  pub pairs_of_lem :
      (u64_pair_of account method raw ≡ (
        if ltb (length raw) 16
        then err (near_rpc_error (short_result account method 16 raw))
        else ok (from_le (slice 0 8 raw), from_le (slice 8 8 raw))))
      × (i64_pair_of account method raw ≡ (
          if ltb (length raw) 16
          then err (near_rpc_error (short_result account method 16 raw))
          else ok (signed 63 (from_le (slice 0 8 raw)), signed 63 (from_le (slice 8 8 raw)))))
  unfolding u64_pair_of i64_pair_of decode_i64_le
  pairs_of_lem = (ground arith, ground arith)

from_le-zeros : (n : ℕ) → from_le (replicate n 0) ≡ 0
unfolding from_le
from_le-zeros zero = refl
from_le-zeros (suc n) = omega (arith, from_le-zeros n)

from_le-take_zeros : (k n : ℕ) → from_le (take k (replicate n 0)) ≡ 0
unfolding from_le
from_le-take_zeros zero n = refl
from_le-take_zeros (suc k) zero = refl
from_le-take_zeros (suc k) (suc n) = omega (arith, from_le-take_zeros k n)

view_bytes-int :
    (account method : Text) (d : Entries) (n : ℕ)
    → get (codes "result") d ≡ some (int (pos n))
    → view_bytes account method (dict d)
      ≡ (if ltb max_bytes n then err overflow_error else ok (replicate n 0))
unfolding view_bytes subscript to_bytes zeros_of
view_bytes-int account method d n e = rw e (ground arith)

-- A view response whose `result` is an integer, which is no byte array, is not refused as malformed:
-- one of at least 8 is decoded as the number 0, a smaller one is too short, and one that is larger
-- than any `bytes` raises `OverflowError`, which the client lets through.
pub u64_of-int_result :
    (account method : Text) (d : Entries) (n : ℕ)
    → get (codes "result") d ≡ some (int (pos n))
    → (view_bytes account method (dict d) >>= λ raw. u64_of account method raw) ≡ (
        if ltb max_bytes n
        then err overflow_error
        else if ltb n 8
        then err (near_rpc_error (short_result account method 8 (replicate n 0)))
        else ok 0)
u64_of-int_result account method d n e = rw (view_bytes-int account method d n e) (
    ground (
      arith,
      u64_of_lem account method (replicate n 0),
      length-replicate n zero,
      from_le-take_zeros 8 n,
    ))
