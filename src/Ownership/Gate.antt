-- ===== src/Ownership/Gate.antt =====
-- What the ownership gate of scripts/check_ownership.py accepts.
use proof_forge_near.Prelude.{
  ◌≡◌, ◌↔◌, refl, sym, Bool, true, false, not, ◌&&◌, ◌||◌, Bool-cases, inl, inr, List, [], ◌∷◌,
  arith, Text, text_eq, text_eq_iff, mem, All, append-nil_iff, Option, if◌then◌else◌,
}
use proof_forge_near.Py.Sorted.{sorted_set}
use proof_forge_near.Ownership.Patterns.{
  Match, finditer, found, direct_emit_import, sdk_forbidden_import, application_import, Letters,
  protocol_vocabulary,
}
use proof_forge_near.Ownership.Check.{
  status, umbrella_users, direct_emit, application, vocabulary, failures, run, new_umbrella,
  load_allowlist, unknown_entries, stale_entries, missing_entry, stale_entry, keep_texts, Failure,
  Source, Repository, report, load_allowlist, uses_umbrella, check_example, check_examples,
  umbrella_users, is_own_target, sdk_matches, check_sdk_file, check_sdk_files, base_name,
  registry_file, check_target_file, check_target_files,
}
use proof_forge_near.Ownership.Nothing.{map-nil_iff, keep_texts-nil_iff, report-nil_iff}

-- An example imports no Emit module, and the umbrella module only where the allowlist names it.
unfoldable pub IsCleanExample : List Text → Source → Type 0
IsCleanExample allowlist f =
    (found (finditer direct_emit_import f.text) ≡ false)
    × ((uses_umbrella f && not (mem f.rel allowlist)) ≡ false)

-- No import of an SDK file is one of Emit, Assemble or Registry that its target owns.
unfoldable pub IsCleanSdk : Source → Type 0
IsCleanSdk f =
    All (λ m. is_own_target f.rel m.capture.0 ≡ false) (finditer sdk_forbidden_import f.text)

-- A target's file is its registry, or free of applications' modules and of their vocabulary.
unfoldable pub IsCleanTarget : Letters → Source → Type 0
IsCleanTarget L f =
    (text_eq (base_name [] f.rel) registry_file
      || (not (found (finditer application_import f.text))
          && not (found (finditer (protocol_vocabulary L) f.text))))
    ≡ true

-- An entry of the allowlist is a file, and an example that imports the umbrella module.
unfoldable pub IsActive : Repository → Text → Type 0
IsActive r p = (r.is_file p ≡ true) × (mem p (umbrella_users r.examples) ≡ true)

unfoldable pub IsClean : Letters → Repository → Type 0
IsClean L r =
    All (IsCleanExample (load_allowlist r.allowlist)) r.examples
    × (((p : Text) → mem p (load_allowlist r.allowlist) ≡ true → IsActive r p)
        × (All IsCleanSdk r.sdk_files × All (IsCleanTarget L) r.target_files))

check_example-nil_iff :
    (allowlist : List Text) (f : Source)
    → (check_example allowlist f ≡ []) ↔ IsCleanExample allowlist f
unfolding check_example IsCleanExample
check_example-nil_iff allowlist f = ground (
  arith,
  append-nil_iff (report direct_emit f direct_emit_import)
      (if uses_umbrella f && not (mem f.rel allowlist) then new_umbrella f.rel ∷ [] else []),
  report-nil_iff direct_emit f direct_emit_import,
)

check_examples-nil_iff :
    (allowlist : List Text) (fs : List Source)
    → (check_examples allowlist fs ≡ []) ↔ All (IsCleanExample allowlist) fs
unfolding check_examples
check_examples-nil_iff allowlist [] = (λ _. tt, λ _. refl)
check_examples-nil_iff allowlist (f ∷ fs) =
    let both = append-nil_iff (check_example allowlist f) (check_examples allowlist fs) in
    let this = check_example-nil_iff allowlist f in
    let more = check_examples-nil_iff allowlist fs in
    (λ e. (this.0 (both.0 e).0, more.0 (both.0 e).1), λ h. both.1 (this.1 h.0, more.1 h.1))

sdk_matches-nil_iff :
    (f : Source) (ms : List (Match (Option Text × Text)))
    → (sdk_matches f ms ≡ []) ↔ All (λ m. is_own_target f.rel m.capture.0 ≡ false) ms
unfolding sdk_matches
sdk_matches-nil_iff f [] = (λ _. tt, λ _. refl)
sdk_matches-nil_iff f (m ∷ ms) = ground (arith, sdk_matches-nil_iff f ms)

check_sdk_files-nil_iff : (fs : List Source) → (check_sdk_files fs ≡ []) ↔ All IsCleanSdk fs
unfolding check_sdk_files check_sdk_file IsCleanSdk
check_sdk_files-nil_iff [] = (λ _. tt, λ _. refl)
check_sdk_files-nil_iff (f ∷ fs) =
    let both = append-nil_iff (check_sdk_file f) (check_sdk_files fs) in
    let this = sdk_matches-nil_iff f (finditer sdk_forbidden_import f.text) in
    let more = check_sdk_files-nil_iff fs in
    (λ e. (this.0 (both.0 e).0, more.0 (both.0 e).1), λ h. both.1 (this.1 h.0, more.1 h.1))

check_target_file-nil_iff :
    (L : Letters) (f : Source) → (check_target_file L f ≡ []) ↔ IsCleanTarget L f
unfolding check_target_file IsCleanTarget
check_target_file-nil_iff L f = ground (
  arith,
  append-nil_iff (report application f application_import)
      (report vocabulary f (protocol_vocabulary L)),
  report-nil_iff application f application_import,
  report-nil_iff vocabulary f (protocol_vocabulary L),
)

check_target_files-nil_iff :
    (L : Letters) (fs : List Source) → (check_target_files L fs ≡ []) ↔ All (IsCleanTarget L) fs
unfolding check_target_files
check_target_files-nil_iff L [] = (λ _. tt, λ _. refl)
check_target_files-nil_iff L (f ∷ fs) =
    let both = append-nil_iff (check_target_file L f) (check_target_files L fs) in
    let this = check_target_file-nil_iff L f in
    let more = check_target_files-nil_iff L fs in
    (λ e. (this.0 (both.0 e).0, more.0 (both.0 e).1), λ h. both.1 (this.1 h.0, more.1 h.1))

-- Every entry is a file that an example with the umbrella import is.
entries-nil_iff :
    (r : Repository)
    → ((unknown_entries r.is_file (load_allowlist r.allowlist) ≡ [])
        × (stale_entries r.is_file (umbrella_users r.examples) (load_allowlist r.allowlist) ≡ []))
      ↔ ((p : Text) → mem p (load_allowlist r.allowlist) ≡ true → IsActive r p)
unfolding unknown_entries stale_entries IsActive
entries-nil_iff r =
    let entries = load_allowlist r.allowlist in
    let users = umbrella_users r.examples in
    let unknown_paths = keep_texts-nil_iff (λ p. not (r.is_file p)) entries in
    let stale_paths = keep_texts-nil_iff (λ p. not (mem p users) && r.is_file p) entries in
    let unknown_map =
      map-nil_iff missing_entry (sorted_set (keep_texts (λ p. not (r.is_file p)) entries)) in
    let stale_map =
      map-nil_iff stale_entry
        (sorted_set (keep_texts (λ p. not (mem p users) && r.is_file p) entries)) in
    (
      λ (u, s) p i.
          let is_there = unknown_paths.0 (unknown_map.0 u) p i in
          let is_user = stale_paths.0 (stale_map.0 s) p i in
          (ground (arith, is_there), ground (arith, is_there, is_user)),
      λ h. (
        unknown_map.1 (unknown_paths.1 (λ p i. ground (arith, (h p i).0))),
        stale_map.1 (stale_paths.1 (λ p i. ground (arith, (h p i).1))),
      ),
    )

status-zero_iff : (fs : List Failure) → (status fs ≡ 0) ↔ (fs ≡ [])
unfolding status
status-zero_iff [] = ground arith
status-zero_iff (f ∷ fs) = ground arith

failures-nil_iff : (L : Letters) (r : Repository) → (failures L r ≡ []) ↔ IsClean L r
unfolding failures IsClean
failures-nil_iff L r =
    let allowlist = load_allowlist r.allowlist in
    let examples = check_examples-nil_iff allowlist r.examples in
    let sdk = check_sdk_files-nil_iff r.sdk_files in
    let target = check_target_files-nil_iff L r.target_files in
    let entries = entries-nil_iff r in
    let split1 = append-nil_iff (check_examples allowlist r.examples) _ in
    let split2 = append-nil_iff (unknown_entries r.is_file allowlist) _ in
    let split3 = append-nil_iff (stale_entries r.is_file (umbrella_users r.examples) allowlist) _ in
    let split4 =
      append-nil_iff (check_sdk_files r.sdk_files) (check_target_files L r.target_files) in
    (
      λ e.
          let (a, b) = split1.0 e in
          let (u, c) = split2.0 b in
          let (s, d) = split3.0 c in
          let (k, t) = split4.0 d in (examples.0 a, (entries.0 (u, s), (sdk.0 k, target.0 t))),
      λ (a, (b, (k, t))).
          let (u, s) = entries.1 b in
          split1.1 (examples.1 a, split2.1 (u, split3.1 (s, split4.1 (sdk.1 k, target.1 t)))),
    )

-- The gate exits with 0 exactly when no example imports an Emit module, every example with the
-- umbrella import is on the allowlist, every entry of the allowlist is a file and such an example,
-- no SDK file imports an Emit, Assemble or Registry module of its own target, and no file of the
-- targets but a Registry.lean imports an application or has the vocabulary of one.
pub run-IsClean : (L : Letters) (r : Repository) → (run L r ≡ 0) ↔ IsClean L r
unfolding run
run-IsClean L r =
    let clean = failures-nil_iff L r in
    (
      λ e. clean.0 ((status-zero_iff (failures L r)).0 e),
      λ h. (status-zero_iff (failures L r)).1 (clean.1 h),
    )

same_bool : (a b : Bool) → (a ≡ true → b ≡ true) → (b ≡ true → a ≡ true) → a ≡ b
same_bool true b h k = sym (h refl)
same_bool false true h k = k refl
same_bool false false h k = refl

users-allowlist :
    (allowlist : List Text) (fs : List Source) (p : Text)
    → All (IsCleanExample allowlist) fs
    → mem p (umbrella_users fs) ≡ true
    → mem p allowlist ≡ true
unfolding umbrella_users IsCleanExample mem
users-allowlist allowlist [] p h i = absurd (ground arith)
users-allowlist allowlist (f ∷ fs) p h i =
    let more = users-allowlist allowlist fs p h.1 in
    elim (Bool-cases (uses_umbrella f)) [
      | inr n ↦ more (ground (arith, n))
      | inl u ↦ elim (Bool-cases (text_eq p f.rel)) [
        | inr other ↦ more (ground (arith, u, other))
        | inl same ↦
            let listed : mem f.rel allowlist ≡ true = ground (arith, u, h.0.1) in
            rw ((text_eq_iff p f.rel).0 same) listed
      ]
    ]

-- Where the gate exits with 0, the allowlist and the examples with the umbrella import are the same
-- paths.
pub run-allowlist :
    (L : Letters) (r : Repository) (p : Text)
    → run L r ≡ 0
    → mem p (load_allowlist r.allowlist) ≡ mem p (umbrella_users r.examples)
unfolding IsClean IsActive
run-allowlist L r p h =
    let (examples, (active, more)) = (run-IsClean L r).0 h in
    same_bool (mem p (load_allowlist r.allowlist)) (mem p (umbrella_users r.examples))
      (λ i. (active p i).1) (users-allowlist (load_allowlist r.allowlist) r.examples p examples)
