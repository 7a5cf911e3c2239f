-- ===== src/Ownership/Owned.antt =====
-- What the repository has where the gate of scripts/check_ownership.py passes, by the places of its
-- texts.
use mathlib.Core.List.{Memᴰ}
use proof_forge_near.Prelude.{
  ◌≡◌, ◌↔◌, ◌⊎◌, inl, inr, refl, sym, ap, ◌∙◌, true, false, Bool-cases, Option, none, some, List,
  [], ◌∷◌, ◌++◌, arith, Text, codes, text_eq, text_eq_iff, mem, All, starts_with, has_substring,
}
use proof_forge_near.Ownership.Places.{NoPlace, found-false_iff}
use proof_forge_near.Ownership.Patterns.{
  finditer, found, direct_emit_import, sdk_forbidden_import, application_import, umbrella_import,
  protocol_vocabulary, Letters,
}
use proof_forge_near.Ownership.Check.{
  Source, Repository, base_name, registry_file, is_own_target, load_allowlist, uses_umbrella,
  umbrella_users, run,
}
use proof_forge_near.Ownership.Gate.{
  IsClean, IsCleanExample, IsCleanSdk, IsCleanTarget, IsActive, run-IsClean,
}

-- No place of an example imports an Emit module, and none the umbrella module unless the allowlist
-- names the example.
unfoldable pub IsOwnedExample : List Text → Source → Type 0
IsOwnedExample allowlist f =
    NoPlace direct_emit_import f.text
    × (NoPlace umbrella_import f.text ⊎ (mem f.rel allowlist ≡ true))

-- A forbidden import names a target, and the file is not below that target's folder.
unfoldable pub IsForeign : Text → Option Text → Type 0
IsForeign rel target =
    (t : Text) × (target ≡ some t)
    × (has_substring (codes "ProofForge/Wasm/" ++ (t ++ codes "/")) rel ≡ false)
    × (starts_with rel (codes "ProofForge/Wasm/" ++ (t ++ codes "/")) ≡ false)

unfoldable pub IsOwnedSdk : Source → Type 0
IsOwnedSdk f = All (λ m. IsForeign f.rel m.capture.0) (finditer sdk_forbidden_import f.text)

-- A target's file is its registry, or has no place that imports an application or names one.
unfoldable pub IsOwnedTarget : Letters → Source → Type 0
IsOwnedTarget L f =
    (base_name [] f.rel ≡ registry_file)
    ⊎ (NoPlace application_import f.text × NoPlace (protocol_vocabulary L) f.text)

-- A path is a file, and that of an example that imports the umbrella module.
unfoldable pub IsUsed : Repository → Text → Type 0
IsUsed r p =
    (r.is_file p ≡ true)
    × ((f : Source) × Memᴰ f r.examples × (p ≡ f.rel) × ¬ (NoPlace umbrella_import f.text))

unfoldable pub IsOwned : Letters → Repository → Type 0
IsOwned L r =
    All (IsOwnedExample (load_allowlist r.allowlist)) r.examples
    × (((p : Text) → mem p (load_allowlist r.allowlist) ≡ true → IsUsed r p)
        × (All IsOwnedSdk r.sdk_files × All (IsOwnedTarget L) r.target_files))

All-iff :
    {A : Type 0} (P Q : A → Type 0) → ((a : A) → P a ↔ Q a) → (xs : List A) → All P xs ↔ All Q xs
All-iff P Q h [] = (λ _. tt, λ _. tt)
All-iff P Q h (x ∷ xs) = (
  λ (p, ps). ((h x).0 p, (All-iff P Q h xs).0 ps),
  λ (q, qs). ((h x).1 q, (All-iff P Q h xs).1 qs),
)

example_iff :
    (allowlist : List Text) (f : Source) → IsCleanExample allowlist f ↔ IsOwnedExample allowlist f
unfolding IsCleanExample IsOwnedExample uses_umbrella
example_iff allowlist f =
    let emit = found-false_iff direct_emit_import f.text in
    let umbrella = found-false_iff umbrella_import f.text in
    (
      λ (a, b). (
        emit.0 a,
        elim (Bool-cases (mem f.rel allowlist)) [
          | inl listed ↦ inr listed
          | inr unlisted ↦ inl (umbrella.0 (ground (arith, b, unlisted)))
        ],
      ),
      λ (a, b). (
        emit.1 a,
        elim b [
          | inl nowhere ↦ let no_use = umbrella.1 nowhere in ground (arith, no_use)
          | inr listed ↦ ground (arith, listed)
        ],
      ),
    )

is_own_target-IsForeign :
    (rel : Text) (target : Option Text) → (is_own_target rel target ≡ false) ↔ IsForeign rel target
unfolding is_own_target IsForeign
is_own_target-IsForeign rel none = (λ e. cc, λ (t, e, apart, behind). cc e)
is_own_target-IsForeign rel (some t) =
    let folder = codes "ProofForge/Wasm/" ++ (t ++ codes "/") in
    (
      λ e. (t, refl, ground (arith, e), ground (arith, e)),
      λ (u, e, apart, behind).
          let same : u ≡ t = cc e in
          let apart' : has_substring folder rel ≡ false = rw same at apart in
          let behind' : starts_with rel folder ≡ false = rw same at behind in
          rw (apart', behind') refl,
    )

target_iff : (L : Letters) (f : Source) → IsCleanTarget L f ↔ IsOwnedTarget L f
unfolding IsCleanTarget IsOwnedTarget
target_iff L f =
    let application = found-false_iff application_import f.text in
    let vocabulary = found-false_iff (protocol_vocabulary L) f.text in
    let registry = text_eq_iff (base_name [] f.rel) registry_file in
    (
      λ e. elim (Bool-cases (text_eq (base_name [] f.rel) registry_file)) [
        | inl is_registry ↦ inl (registry.0 is_registry)
        | inr other ↦
            inr (application.0 (ground (arith, e, other)), vocabulary.0 (ground (arith, e, other)))
      ],
      λ h. elim h [
        | inl is_registry ↦ let known = registry.1 is_registry in ground (arith, known)
        | inr (a, v) ↦
            let no_application = application.1 a in
            let no_vocabulary = vocabulary.1 v in ground (arith, no_application, no_vocabulary)
      ],
    )

uses_iff : (f : Source) → (uses_umbrella f ≡ true) ↔ ¬ (NoPlace umbrella_import f.text)
unfolding uses_umbrella
uses_iff f =
    let umbrella = found-false_iff umbrella_import f.text in
    (
      λ u nowhere. let unused = umbrella.1 nowhere in absurd (ground (arith, u, unused)),
      λ used. elim (Bool-cases (found (finditer umbrella_import f.text))) [
        | inl u ↦ u
        | inr n ↦ absurd (used (umbrella.0 n))
      ],
    )

abbrev UsedBy : List Source → Text → Type 0
UsedBy fs p = (f : Source) × Memᴰ f fs × (p ≡ f.rel) × ¬ (NoPlace umbrella_import f.text)

used_sound : (fs : List Source) (p : Text) → mem p (umbrella_users fs) ≡ true → UsedBy fs p
unfolding umbrella_users mem
used_sound [] p i = absurd (ground arith)
used_sound (f ∷ fs) p i =
    let more : mem p (umbrella_users fs) ≡ true → UsedBy (f ∷ fs) p =
      λ j. let (g, m, e, u) = used_sound fs p j in (g, Memᴰ.tail m, e, u) in
    elim (Bool-cases (uses_umbrella f)) [
      | inr n ↦ more (ground (arith, n, i))
      | inl u ↦ elim (Bool-cases (text_eq p f.rel)) [
        | inl same ↦ (f, Memᴰ.head refl, (text_eq_iff p f.rel).0 same, (uses_iff f).0 u)
        | inr other ↦ more (ground (arith, u, other, i))
      ]
    ]

used_complete :
    (fs : List Source) (f : Source)
    → Memᴰ f fs
    → uses_umbrella f ≡ true
    → mem f.rel (umbrella_users fs) ≡ true
unfolding umbrella_users mem
used_complete [] f m u = elim m [ ]
used_complete (g ∷ fs) f (Memᴰ.head e) u =
    let u' : uses_umbrella g ≡ true = ap uses_umbrella (sym e) ∙ u in
    let same = (text_eq_iff f.rel g.rel).1 (ap (λ x. x.rel) e) in ground (arith, u', same)
used_complete (g ∷ fs) f (Memᴰ.tail m) u =
    let more = used_complete fs f m u in
    elim (Bool-cases (uses_umbrella g)) [
      | inl v ↦ ground (arith, v, more)
      | inr n ↦ ground (arith, n, more)
    ]

used_iff : (fs : List Source) (p : Text) → (mem p (umbrella_users fs) ≡ true) ↔ UsedBy fs p
used_iff fs p = (
  used_sound fs p,
  λ (f, m, e, u). ap (λ q. mem q (umbrella_users fs)) e ∙ used_complete fs f m ((uses_iff f).1 u),
)

-- The gate exits with 0 exactly when: no place of an example imports an Emit module, or the umbrella
-- module where the allowlist does not name the example; every entry of the allowlist is a file and an
-- example that imports the umbrella module; every match of the SDK pattern (Emit, Assemble, Registry)
-- in an SDK file names a target, below whose folder the file is not; and no place of a target's file
-- but a Registry.lean imports an application or has the vocabulary of one.
pub run_iff : (L : Letters) (r : Repository) → (run L r ≡ 0) ↔ IsOwned L r
unfolding IsClean IsOwned IsActive IsUsed IsCleanSdk IsOwnedSdk
run_iff L r =
    let clean = run-IsClean L r in
    let allowlist = load_allowlist r.allowlist in
    let examples =
      All-iff (IsCleanExample allowlist) (IsOwnedExample allowlist) (example_iff allowlist)
        r.examples in
    let sdk =
      All-iff IsCleanSdk IsOwnedSdk
        (λ f.
          All-iff _ _ (λ m. is_own_target-IsForeign f.rel m.capture.0)
            (finditer sdk_forbidden_import f.text))
        r.sdk_files in
    let target = All-iff (IsCleanTarget L) (IsOwnedTarget L) (target_iff L) r.target_files in
    (
      λ e.
          let (a, (b, (k, t))) = clean.0 e in
          (
            examples.0 a,
            (λ p i. ((b p i).0, (used_iff r.examples p).0 (b p i).1), (sdk.0 k, target.0 t)),
          ),
      λ (a, (b, (k, t))). clean.1 (
        examples.1 a,
        (λ p i. ((b p i).0, (used_iff r.examples p).1 (b p i).1), (sdk.1 k, target.1 t)),
      ),
    )
