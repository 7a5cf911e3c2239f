-- ===== src/Ownership/Lines.antt =====
-- Where scripts/check_ownership.py says that a violation is.
use proof_forge_near.Prelude.{
  ◌≡◌, ℕ, zero, suc, ◌+◌, ◌-◌, ◌≤◌, [], ◌∷◌, ◌++◌, List, map, Bool-cases, inl, inr, Text, codes,
  starts_with, take, drop, Option, none, some, sym, ap, ◌∙◌, length, length-append,
  length-replicate, replicate, arith, refl, ltb, ◌&&◌,
}
use proof_forge_near.Py.Space.{skip_space, strip_space}
use proof_forge_near.Ownership.Check.{Rule, Failure, broken_rule, report, line_number}
use proof_forge_near.Ownership.Patterns.{
  Match, finditer, finditer_from, import_at, dotted, last_is_emit, with_length, Pattern, newline,
  direct_emit_import,
}

abbrev empty_lines : ℕ → Text
empty_lines n = replicate n newline

skip_space-lines : (n : ℕ) (s : Text) → skip_space (empty_lines n ++ s) ≡ skip_space s
unfolding skip_space
skip_space-lines zero s = refl
skip_space-lines (suc n) s = skip_space-lines n s

strip_space-lines : (n : ℕ) (s : Text) → strip_space (empty_lines n ++ s) ≡ strip_space s
unfolding strip_space
strip_space-lines n s = rw (skip_space-lines n s) refl

length-skip_space_le : (s : Text) → length (skip_space s) ≤ length s
unfolding skip_space
length-skip_space_le [] = omega arith
length-skip_space_le (c ∷ rest) = ground (arith, length-skip_space_le rest)

length-drop_le : (n : ℕ) (s : Text) → length (drop n s) ≤ length s
length-drop_le zero s = omega arith
length-drop_le (suc n) [] = omega arith
length-drop_le (suc n) (c ∷ rest) = omega (arith, length-drop_le n rest)

take-lines : (n k : ℕ) (s : Text) → take (n + k) (empty_lines n ++ s) ≡ empty_lines n ++ take k s
take-lines zero k s = ap (λ m. take m s) (omega arith)
take-lines (suc n) k s =
    let one_more : suc n + k ≡ suc (n + k) = omega arith in
    ap (λ m. take m (empty_lines (suc n) ++ s)) one_more ∙ ap (λ r. newline ∷ r) (take-lines n k s)

with_length-add {ℓ} :
    (A : Type ℓ) (n i k : ℕ) (a : A) (o : Option (ℕ × A))
    → with_length i o ≡ some (k, a)
    → with_length (n + i) o ≡ some (n + k, a)
unfolding with_length
with_length-add A n i k a none e = cc
with_length-add A n i k a (some (m, b)) e =
    let same : ◌≡◌ {A = ℕ × A} (i + m, b) (k, a) = cc e in
    let moved : (n + i) + m ≡ n + (i + m) = omega arith in
    ap (λ j. some (j, b)) moved ∙ ap (λ p. some (n + p.0, p.1)) same

-- Empty lines in front of a match at the start of a text are part of the match.
import_at-lines {ℓ} :
    {A : Type ℓ} (target : Text → Option (ℕ × A)) (n : ℕ) (s : Text) (k : ℕ) (a : A)
    → import_at target none s ≡ some (k, a)
    → import_at target none (empty_lines n ++ s) ≡ some (n + k, a)
unfolding import_at
import_at-lines {A = A} target n s k a e =
    let keyword = skip_space s in
    let behind = drop 6 keyword in
    let body = skip_space behind in
    let matches = starts_with keyword (codes "import") && ltb (length body) (length behind) in
    let size : length (empty_lines n ++ s) - length body ≡ n + (length s - length body) = omega (
      arith,
      length-append (empty_lines n) s,
      length-replicate n newline,
      length-skip_space_le s,
      length-drop_le 6 keyword,
      length-skip_space_le behind,
    ) in
    rw (skip_space-lines n s) (elim (Bool-cases matches) [
      | inr no_match ↦
          let bad : ◌≡◌ {A = Option (ℕ × A)} none (some (k, a)) = rw no_match at e in cc bad
      | inl is_match ↦
          rw (is_match, size)
            (with_length-add A n (length s - length body) k a (target body) (rw is_match at e))
    ])

-- A match at the start of a text is the first one.
finditer-first {ℓ} :
    {A : Type ℓ} (p : Pattern A) (c : ℕ) (rest : Text) (k : ℕ) (a : A)
    → p none (c ∷ rest) ≡ some (k, a)
    → finditer p (c ∷ rest)
      ≡ record { start = 0; group = take k (c ∷ rest); capture = a }
        ∷ finditer_from p (some c) (k - 1) 1 rest
unfolding finditer finditer_from
finditer-first p c rest k a e = rw (finditer, finditer_from, e) refl

no_match : direct_emit_import none [] ≡ none
unfolding direct_emit_import import_at starts_with skip_space
no_match = refl

-- A forbidden import that the pattern matches at the start of a text is reported, behind any number
-- of empty lines, as the first failure and at line 1, which is the first of those lines.
pub report-empty_lines :
    (rule : Rule) (rel : Text) (n : ℕ) (s : Text) (k : ℕ)
    → direct_emit_import none s ≡ some (k, tt)
    → (more : List Failure) × (report rule
          (record { rel = rel; text = replicate n newline ++ s })
          direct_emit_import
        ≡ broken_rule rule rel 1 (strip_space (take k s)) ∷ more)
unfolding report line_number import_at direct_emit_import
report-empty_lines rule rel n s k e =
    first_report (empty_lines n ++ s) (n + k)
      (import_at-lines (dotted (codes "ProofForge.Wasm") last_is_emit) n s k tt e)
      (ap strip_space (take-lines n k s) ∙ strip_space-lines n (take k s))
  where
    first_report :
        (text : Text) (j : ℕ)
        → direct_emit_import none text ≡ some (j, tt)
        → strip_space (take j text) ≡ strip_space (take k s)
        → (more : List Failure) × (report rule
              (record { rel = rel; text = text })
              direct_emit_import
            ≡ broken_rule rule rel 1 (strip_space (take k s)) ∷ more)
    first_report [] j m same =
        let bad : ◌≡◌ {A = Option (ℕ × Unit {0})} none (some (j, tt)) = sym no_match ∙ m in cc bad
    first_report (c ∷ rest) j m same =
        let named : Match (Unit {0}) → Failure =
          λ x. broken_rule rule rel (line_number (c ∷ rest) x.start) (strip_space x.group) in
        let others = map named (finditer_from direct_emit_import (some c) (j - 1) 1 rest) in
        (
          others,
          ap (map named) (finditer-first direct_emit_import c rest j tt m)
              ∙ ap (λ t. broken_rule rule rel 1 t ∷ others) same,
        )
