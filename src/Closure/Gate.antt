-- ===== src/Closure/Gate.antt =====
-- The gate on an entry point.
use proof_forge_near.Prelude.{
  ℕ, ◌+◌, ◌<◌, ◌≡◌, ◌↔◌, refl, Bool, true, false, Option, some, Option-cases, Bool-cases, inl, inr,
  List, [], ◌∷◌, arith, Text, text_eq_iff, mem,
}
use proof_forge_near.Closure.{
  is_forbidden, module_text, imports_of, closure, Failure, missing_entry, all_reach, entry_failures,
}
use proof_forge_near.Closure.Reachable.{Reach, closure_sound}
use proof_forge_near.Closure.Fuel.{weight, closure_total}

all_reach-nil : (entry : Text) (bad : List Text) → (all_reach entry bad ≡ []) ↔ (bad ≡ [])
unfolding all_reach
all_reach-nil entry [] = ground arith
all_reach-nil entry (m ∷ bad) = ground arith

nil_of_no_mem : (xs : List Text) → ((x : Text) → mem x xs ≡ false) → xs ≡ []
unfolding mem
nil_of_no_mem [] h = refl
nil_of_no_mem (x ∷ xs) h = absurd (ground (arith, h x, text_eq_iff x x))

-- The entry has a file, and reaches no forbidden module.
pub record IsClean (space : ℕ → Bool) (file : List Text → Option Text) (entry : Text) : Type 0 where
  pub text : Text
  pub present : module_text file entry ≡ some text
  pub reaches_none : (x : Text) → Reach (imports_of space file) entry x → is_forbidden x ≡ false

module _ (space : ℕ → Bool) (file : List Text → Option Text) (entry : Text) (universe : List Text)
    (entry_in : mem entry universe ≡ true)
    (closed : (m d : Text)
      → mem m universe ≡ true
      → mem d (imports_of space file m) ≡ true
      → mem d universe ≡ true)
    (fuel : ℕ) (enough : 1 + weight (imports_of space file) [] universe < fuel) where
  bad-nil :
      (seen bad : List Text)
      → closure (imports_of space file) fuel entry ≡ some (seen, bad)
      → (bad ≡ []) ↔ ((x : Text) → Reach (imports_of space file) entry x → is_forbidden x ≡ false)
  unfolding mem
  bad-nil seen bad h = (
    λ e x r.
        let sound = closure_sound (imports_of space file) entry fuel seen bad h x in
        elim (Bool-cases (is_forbidden x)) [
          | inr free ↦ free
          | inl f ↦ absurd (in_nil x (rw e at (sound.1.1 (r, f))))
        ],
    λ all. nil_of_no_mem bad λ x.
        let sound = closure_sound (imports_of space file) entry fuel seen bad h x in
        elim (Bool-cases (mem x bad)) [
          | inr out ↦ out
          | inl i ↦ let (r, f) = sound.1.0 i in absurd (clash (is_forbidden x) f (all x r))
        ],
  )
    where
      in_nil : (x : Text) → mem x [] ≡ true → ⊥
      in_nil x i = cc

      clash : (b : Bool) → b ≡ true → b ≡ false → ⊥
      clash b p q = cc

  -- The gate ends, and reports nothing exactly when the entry's file is there and the entry
  -- reaches no forbidden module over the imports of modules that are not forbidden. The modules
  -- are those of a finite set with the entry that is closed under imports.
  pub entry_failures_iff :
      (r : List Failure) × (entry_failures space file fuel entry ≡ some r)
      × ((r ≡ []) ↔ IsClean space file entry)
  unfolding entry_failures
  entry_failures_iff = elim (Option-cases (module_text file entry)) [
    | inl gone ↦
        (missing_entry entry ∷ [], ground (arith, gone), (λ e. cc e, λ c. cc (gone, c.present)))
    | inr (text, present) ↦
        let ((seen, bad), e) =
          closure_total (imports_of space file) universe closed fuel entry entry_in enough in
        let iff = bad-nil seen bad e in
        (
          all_reach entry bad,
          ground (arith, present, e),
          (
            λ h. record {
              text = text;
              present = present;
              reaches_none = iff.0 ((all_reach-nil entry bad).0 h);
            },
            λ c. (all_reach-nil entry bad).1 (iff.1 c.reaches_none),
          ),
        )
  ]
