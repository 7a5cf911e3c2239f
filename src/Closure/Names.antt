-- ===== src/Closure/Names.antt =====
-- Which module names `is_forbidden` means.
use proof_forge_near.Prelude.{
  ◌≡◌, ◌↔◌, true, Bool-cases, inl, inr, List, [], ◌∷◌, ◌++◌, arith, Text, mem, text_eq, text_eq_iff,
  starts_with_sound, starts_with-append, drop, length, drop-length_append,
}
use proof_forge_near.ModuleNames.{split_dots}
use proof_forge_near.Closure.{forbidden_parts, wasm_prefix, any_forbidden, is_forbidden}

any_forbidden_iff :
    (parts : List Text)
    → (any_forbidden parts ≡ true)
      ↔ ((p : Text) × (mem p parts ≡ true) × (mem p forbidden_parts ≡ true))
unfolding any_forbidden mem
any_forbidden_iff [] = (λ h. absurd (ground arith), λ (p, i, f). cc i)
any_forbidden_iff (q ∷ qs) =
    let more = any_forbidden_iff qs in
    (
      λ h. elim (Bool-cases (mem q forbidden_parts)) [
        | inl f ↦ (q, ground (arith, text_eq_iff q q), f)
        | inr n ↦ let (p, i, f) = more.0 (ground (arith, n, h)) in (p, ground (arith, i), f)
      ],
      λ (p, i, f). elim (Bool-cases (text_eq p q)) [
        | inl same ↦ ground (arith, rw ((text_eq_iff p q).0 same) at f)
        | inr other ↦ ground (arith, more.1 (p, ground (arith, other, i), f))
      ],
    )

-- A module name is forbidden exactly when it begins with `ProofForge.Wasm.` and one of the parts
-- between the dots of the rest is `Emit`, `Assemble` or `Registry`.
pub is_forbidden_iff :
    (m : Text)
    → (is_forbidden m ≡ true) ↔ (
        (rest : Text) × (m ≡ wasm_prefix ++ rest)
        × ((p : Text) × (mem p (split_dots rest) ≡ true) × (mem p forbidden_parts ≡ true)))
unfolding is_forbidden
is_forbidden_iff m = (
  λ h.
      let (rest, e) = starts_with_sound m wasm_prefix (ground arith) in
      let parts : any_forbidden (split_dots (drop (length wasm_prefix) m)) ≡ true = ground arith in
      let parts' : any_forbidden (split_dots rest) ≡ true =
        rw (e, drop-length_append wasm_prefix rest) at parts in
      (rest, e, (any_forbidden_iff (split_dots rest)).0 parts'),
  λ (rest, e, has).
      rw (e, starts_with-append wasm_prefix rest, drop-length_append wasm_prefix rest)
        ((any_forbidden_iff (split_dots rest)).1 has),
)
