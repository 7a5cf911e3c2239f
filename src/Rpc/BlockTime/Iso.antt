-- ===== src/Rpc/BlockTime/Iso.antt =====
-- The text that `latest_block_time_unix_seconds` makes of a UTC timestamp.
use proof_forge_near.Prelude.{
  ◌≡◌, refl, ap, ◌∙◌, ℕ, Bool, true, false, some, [], ◌∷◌, ◌++◌, append_assoc, ◌==◌, All, Text,
  codes, take,
}
use proof_forge_near.Rpc.BlockTime.{with_zone, split_dot, behind, digits_first, six_digits}

with_zone-append : (xs : Text) → with_zone (xs ++ codes "Z") ≡ xs ++ codes "+00:00"
unfolding with_zone
with_zone-append [] = refl
with_zone-append (x ∷ []) = refl
with_zone-append (x ∷ y ∷ rest) = ap (λ r. x ∷ r) (with_zone-append (y ∷ rest))

split_dot-append :
    (head rest : Text)
    → All (λ ch. (ch == b'.') ≡ false) head
    → split_dot (head ++ (b'.' ∷ rest)) ≡ some (head, rest)
unfolding split_dot behind
split_dot-append [] rest h = refl
split_dot-append (ch ∷ head) rest h = rw (h.0, split_dot-append head rest h.1) refl

module _ (is_digit : ℕ → Bool) (no_sign : is_digit b'+' ≡ false) where
  digits_first-append :
      (frac : Text)
      → All (λ ch. is_digit ch ≡ true) frac
      → digits_first is_digit (frac ++ codes "+00:00") ≡ (frac, codes "+00:00")
  unfolding digits_first
  digits_first-append [] h = rw no_sign refl
  digits_first-append (ch ∷ frac) h = rw (h.0, digits_first-append frac h.1) refl

  -- A UTC timestamp with a fraction of any length, whose front has no dot, is given the six digits
  -- of its fraction that `datetime` reads, zeros behind a shorter one, and the offset of UTC.
  pub six_digits-with_zone :
      (head frac : Text)
      → All (λ ch. (ch == b'.') ≡ false) head
      → All (λ ch. is_digit ch ≡ true) frac
      → six_digits is_digit (with_zone (head ++ (b'.' ∷ (frac ++ codes "Z"))))
        ≡ head ++ (b'.' ∷ (take 6 (frac ++ codes "000000") ++ codes "+00:00"))
  unfolding six_digits
  six_digits-with_zone head frac plain digits =
      let zoned : with_zone (head ++ (b'.' ∷ (frac ++ codes "Z")))
          ≡ head ++ (b'.' ∷ (frac ++ codes "+00:00")) =
        rw (← append_assoc head (b'.' ∷ frac) (codes "Z")) (
          with_zone-append (head ++ (b'.' ∷ frac))
          ∙ append_assoc head (b'.' ∷ frac) (codes "+00:00")) in
      rw
        (
          zoned,
          six_digits,
          split_dot-append head (frac ++ codes "+00:00") plain,
          digits_first-append frac digits,
        )
        refl
