-- ===== src/Ownership/Nothing.antt =====
-- When a part of scripts/check_ownership.py reports nothing.
use proof_forge_near.Prelude.{
  ◌≡◌, ◌↔◌, refl, sym, Bool, true, false, Bool-cases, inl, inr, List, [], ◌∷◌, map, arith, Text,
  text_eq, text_eq_iff, mem,
}
use proof_forge_near.Py.Sorted.{sorted_set, mem-sorted_set}
use proof_forge_near.Ownership.Patterns.{Match, Pattern, found, finditer}
use proof_forge_near.Ownership.Check.{Source, Rule, report, keep_texts}

pub map-nil_iff {ℓ κ} :
    {A : Type ℓ} {B : Type κ} (f : A → B) (xs : List A) → (map f xs ≡ []) ↔ (xs ≡ [])
map-nil_iff f [] = (λ _. refl, λ _. refl)
map-nil_iff f (x ∷ xs) = ground arith

-- A list of texts is empty when it has no element.
nil-mem : (xs : List Text) → ((p : Text) → mem p xs ≡ false) → xs ≡ []
unfolding mem
nil-mem [] h = refl
nil-mem (x ∷ xs) h = absurd (ground (arith, h x, text_eq_iff x x))

mem-keep_texts :
    (keep : Text → Bool) (p : Text) (ps : List Text)
    → (mem p (keep_texts keep ps) ≡ true) ↔ ((mem p ps ≡ true) × (keep p ≡ true))
unfolding mem keep_texts
mem-keep_texts keep p [] = ground arith
mem-keep_texts keep p (q ∷ ps) = elim (Bool-cases (text_eq p q)) [
  | inl same ↦
      let e = (text_eq_iff p q).0 same in
      rw (sym e) (ground (arith, text_eq_iff p p, mem-keep_texts keep p ps))
  | inr other ↦ ground (arith, other, mem-keep_texts keep p ps)
]

pub keep_texts-nil_iff :
    (keep : Text → Bool) (ps : List Text)
    → (sorted_set (keep_texts keep ps) ≡ []) ↔ ((p : Text) → mem p ps ≡ true → keep p ≡ false)
unfolding mem
keep_texts-nil_iff keep ps = (
  λ e p i. elim (Bool-cases (keep p)) [
    | inl k ↦
        let inside : mem p (sorted_set (keep_texts keep ps)) ≡ true =
          ground (arith, mem-sorted_set p (keep_texts keep ps), mem-keep_texts keep p ps) in
        absurd (ground (arith, rw e at inside))
    | inr n ↦ n
  ],
  λ h. nil-mem (sorted_set (keep_texts keep ps)) (λ p.
      elim (Bool-cases (mem p (keep_texts keep ps))) [
        | inl i ↦ absurd (ground (arith, (mem-keep_texts keep p ps).0 i, h p))
        | inr n ↦ ground (arith, mem-sorted_set p (keep_texts keep ps), n)
      ]),
)

found-nil_iff {ℓ} : {A : Type ℓ} (ms : List (Match A)) → (ms ≡ []) ↔ (found ms ≡ false)
unfolding found
found-nil_iff [] = ground arith
found-nil_iff (m ∷ ms) = ground arith

pub report-nil_iff :
    (rule : Rule) (f : Source) (pattern_at : Pattern (Unit {0}))
    → (report rule f pattern_at ≡ []) ↔ (found (finditer pattern_at f.text) ≡ false)
unfolding report
report-nil_iff rule f pattern_at =
    let mapped = map-nil_iff _ (finditer pattern_at f.text) in
    let none_found = found-nil_iff (finditer pattern_at f.text) in
    (λ e. none_found.0 (mapped.0 e), λ n. mapped.1 (none_found.1 n))
