-- ===== src/Py/Decimal.antt =====
-- `str(n).encode()` of a number that is not negative, and `int` of such a text.
use proof_forge_near.Prelude.{
  ◌≡◌, refl, ℕ, zero, suc, ◌+◌, ◌-◌, ◌*◌, ◌/◌, ◌%◌, ◌<◌, true, false, Bool-cases, inl, inr, [], ◌∷◌,
  ltb, arith, Bytes,
}

digits : ℕ → ℕ → Bytes → Bytes
digits zero n acc = acc
digits (suc fuel) n acc = elim (ltb n 10) [
  | true ↦ (48 + n) ∷ acc
  | false ↦ digits fuel (n / 10) ((48 + n % 10) ∷ acc)
]

-- A number has fewer digits than one more than itself.
unfoldable pub decimal : ℕ → Bytes
unfolding digits
decimal n = digits (suc n) n []

unfoldable pub value_from : ℕ → Bytes → ℕ
value_from v [] = v
value_from v (d ∷ ds) = value_from (10 * v + (d - 48)) ds

value_from-digits :
    (fuel n : ℕ) (acc : Bytes) → n < fuel → value_from 0 (digits fuel n acc) ≡ value_from n acc
unfolding digits value_from
value_from-digits zero n acc h = absurd (omega arith)
value_from-digits (suc fuel) n acc h = elim (Bool-cases (ltb n 10)) [
  | inl small ↦ let e : 10 * 0 + ((48 + n) - 48) ≡ n = omega arith in rw (digits, small, e) refl
  | inr large ↦
      let more = value_from-digits fuel (n / 10) ((48 + n % 10) ∷ acc) (ground (arith, large)) in
      let e : 10 * (n / 10) + ((48 + n % 10) - 48) ≡ n = omega arith in
      rw (digits, large, more, e) refl
]

-- The digits of a number are read back as the number.
pub value_from-decimal : (n : ℕ) → value_from 0 (decimal n) ≡ n
unfolding decimal value_from
value_from-decimal n = value_from-digits (suc n) n [] (omega arith)
