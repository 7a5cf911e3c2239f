-- ===== src/Py/Bytes.antt =====
-- `int.to_bytes`, `int.from_bytes` and slices, little endian.
use native.Mathlib.Nat.{pow-suc}
use proof_forge_near.Prelude.{
  ℕ, zero, suc, ◌+◌, ◌*◌, ◌/◌, ◌%◌, ◌^◌, ◌<◌, ◌≡◌, refl, ap, [], ◌∷◌, ◌++◌, arith, Bytes, All,
  length, take, drop, take-length_append, drop-length_append,
}

-- `n.to_bytes(w, "little")`, where it fits.
unfoldable pub to_le : ℕ → ℕ → Bytes
to_le zero n = []
to_le (suc w) n = (n % 256) ∷ to_le w (n / 256)

-- `int.from_bytes(b, "little")`
unfoldable pub from_le : Bytes → ℕ
from_le [] = 0
from_le (b ∷ bs) = b + 256 * from_le bs

abbrev pub IsByte : ℕ → Type 0
IsByte b = b < 256

-- `b[start : start + n]`
abbrev pub slice : ℕ → ℕ → Bytes → Bytes
slice start n b = take n (drop start b)

pow_step : (w : ℕ) → 256 ^ suc w ≡ 256 * 256 ^ w
pow_step w = simp pow-suc (omega arith)

pub length-to_le : (w n : ℕ) → length (to_le w n) ≡ w
unfolding to_le
length-to_le zero n = refl
length-to_le (suc w) n = ap suc (length-to_le w (n / 256))

pub to_le-IsByte : (w n : ℕ) → All IsByte (to_le w n)
unfolding to_le
to_le-IsByte zero n = tt
to_le-IsByte (suc w) n = (omega arith, to_le-IsByte w (n / 256))

pub from_le-to_le : (w n : ℕ) → n < 256 ^ w → from_le (to_le w n) ≡ n
unfolding to_le from_le
from_le-to_le zero n h = omega arith
from_le-to_le (suc w) n h = omega (arith, from_le-to_le w (n / 256) (omega (arith, pow_step w)))

pub to_le-from_le : (bs : Bytes) → All IsByte bs → to_le (length bs) (from_le bs) ≡ bs
unfolding to_le from_le
to_le-from_le [] h = refl
to_le-from_le (b ∷ bs) h =
    let e : (b + 256 * from_le bs) % 256 ≡ b = omega (arith, h.0) in
    let q : (b + 256 * from_le bs) / 256 ≡ from_le bs = omega (arith, h.0) in
    rw (e, q) (ap (λ r. b ∷ r) (to_le-from_le bs h.1))

pub from_le-lt : (bs : Bytes) → All IsByte bs → from_le bs < 256 ^ length bs
unfolding from_le
from_le-lt [] h = omega arith
from_le-lt (b ∷ bs) h = omega (arith, h.0, from_le-lt bs h.1, pow_step (length bs))

pub slice-append : (pre b post : Bytes) → slice (length pre) (length b) (pre ++ (b ++ post)) ≡ b
slice-append pre b post = rw drop-length_append (take-length_append b post)
