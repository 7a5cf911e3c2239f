-- ===== src/Ownership/Places.antt =====
-- A pattern of scripts/check_ownership.py is not found exactly when it matches at no place of the text.
use mathlib.Core.List.{head-eq_of_cons-eq, tail-eq_of_cons-eq}
use proof_forge_near.Prelude.{
  ◌+◌, ◌≡◌, ◌↔◌, inl, inr, refl, sym, ap, ◌∙◌, subst, ℕ, false, Option, none, some, Option-cases,
  [], ◌∷◌, ◌++◌, arith, Text,
}
use proof_forge_near.Ownership.Patterns.{Pattern, finditer, finditer_from, found}

-- The character before a place of a text.
abbrev last_of : Option ℕ → Text → Option ℕ
last_of prev [] = prev
last_of prev (c ∷ rest) = last_of (some c) rest

-- At no place of the text, with a given character before the text, does the pattern match.
abbrev NoPlaceFrom : {A : Type 0} → Pattern A → Option ℕ → Text → Type 0
NoPlaceFrom p prev text =
    (before : Text) (c : ℕ) (rest : Text)
    → text ≡ before ++ (c ∷ rest)
    → p (last_of prev before) (c ∷ rest) ≡ none

abbrev pub NoPlace : {A : Type 0} → Pattern A → Text → Type 0
NoPlace p text = NoPlaceFrom p none text

module _ {A : Type 0} (p : Pattern A) where
  found-NoPlaceFrom :
      (prev : Option ℕ) (pos : ℕ) (text : Text)
      → found (finditer_from p prev 0 pos text) ≡ false
      → NoPlaceFrom p prev text
  unfolding finditer_from found
  found-NoPlaceFrom prev pos [] h [] c rest e = cc
  found-NoPlaceFrom prev pos [] h (b ∷ before) c rest e = cc
  found-NoPlaceFrom prev pos (d ∷ text) h before c rest e =
      elim (Option-cases (p prev (d ∷ text))) [
        | inr (m, q) ↦ absurd (ground (arith, q, h))
        | inl q ↦
            onward before q e (found-NoPlaceFrom (some d) (pos + 1) text (ground (arith, q, h)))
      ]
    where
      onward :
          (before : Text)
          → p prev (d ∷ text) ≡ none
          → (d ∷ text) ≡ before ++ (c ∷ rest)
          → NoPlaceFrom p (some d) text
          → p (last_of prev before) (c ∷ rest) ≡ none
      onward [] q e more = ap (p prev) (sym e) ∙ q
      onward (b ∷ before) q e more =
          let same : d ≡ b = head-eq_of_cons-eq e in
          let behind : text ≡ before ++ (c ∷ rest) = tail-eq_of_cons-eq e in
          subst (λ x. p (last_of (some x) before) (c ∷ rest) ≡ none) same
            (more before c rest behind)

  NoPlaceFrom-found :
      (prev : Option ℕ) (pos : ℕ) (text : Text)
      → NoPlaceFrom p prev text
      → found (finditer_from p prev 0 pos text) ≡ false
  unfolding finditer_from found
  NoPlaceFrom-found prev pos [] h = refl
  NoPlaceFrom-found prev pos (d ∷ text) h =
      rw (found, finditer_from, h [] d text refl)
        (NoPlaceFrom-found (some d) (pos + 1) text
          (λ before c rest e. h (d ∷ before) c rest (ap (λ r. d ∷ r) e)))

  pub found-false_iff : (text : Text) → (found (finditer p text) ≡ false) ↔ NoPlace p text
  unfolding finditer
  found-false_iff text = (found-NoPlaceFrom none 0 text, NoPlaceFrom-found none 0 text)
