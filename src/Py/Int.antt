-- ===== src/Py/Int.antt =====
-- Python's integers.
use proof_forge_near.Prelude.{ℕ, ◌+◌, ◌-◌, ◌%◌, ◌^◌, ltb, if◌then◌else◌}

-- `negsuc n` is -(n + 1).
pub data ℤ : Type 0 where
  pos : ℕ → ℤ
  negsuc : ℕ → ℤ

-- `n & ((1 << w) - 1)`: the remainder of `n`, which is not negative.
abbrev pub low_bits : ℤ → ℕ → ℕ
low_bits (pos n) w = n % 2 ^ w
low_bits (negsuc n) w = 2 ^ w - 1 - n % 2 ^ w

-- What a pattern of `w + 1` bits stands for in two's complement.
abbrev pub signed : ℕ → ℕ → ℤ
signed w n = if ltb n (2 ^ w) then pos n else negsuc (2 ^ (w + 1) - 1 - n)
