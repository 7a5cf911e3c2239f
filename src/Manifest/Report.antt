-- ===== src/Manifest/Report.antt =====
-- `report` on `diagnostics`: the status of the gate.
use proof_forge_near.Prelude.{
  ◌≡◌, ◌↔◌, refl, Bool-cases, some, inl, inr, List, [], ◌∷◌, ◌==◌, arith, Text, length, All,
}
use proof_forge_near.Py.Result.{ok, Result-cases}
use proof_forge_near.Py.Dict.{Dict, NodupKeys}
use proof_forge_near.Manifest.{
  File, Library, entries_found, load_entries, parse_registry, expected_count, check_target,
  empty_check, target_check, diagnostics, report,
}
use proof_forge_near.Manifest.Registry.{HasHexDigest, parse_registry_iff}
use proof_forge_near.Manifest.Target.{IsOwned, HasFiles, check_target_iff}

module _ (L : Library) where
  -- What the gate asks of the registry's entries and of the output directory.
  pub record IsClean (found : List (Text × Text)) (out : List File) : Type 0 where
    pub count : length found ≡ expected_count
    pub distinct : NodupKeys found
    pub hexadecimal : All HasHexDigest found
    pub owned : All (IsOwned L found) out
    pub complete : All (HasFiles L out) found

  diagnostics-ok :
      (found entries : Dict Text) (out : List File)
      → parse_registry found ≡ ok entries
      → (report (diagnostics L (entries_found found) (some out)) ≡ 0)
        ↔ ((length entries ≡ expected_count) × (check_target L entries (some out) ≡ []))
  unfolding report diagnostics load_entries empty_check target_check
  diagnostics-ok found [] out e = (λ h. absurd (ground arith), λ (h, k). ground arith)
  diagnostics-ok found (x ∷ xs) out e = elim (Bool-cases (length (x ∷ xs) == expected_count)) [
    | inl n ↦ (λ h. ground arith, λ (h, k). ground arith)
    | inr y ↦ (λ h. ground arith, λ (h, k). ground arith)
  ]

  -- The gate's status is 0 for a registry and an output directory exactly when the registry lists
  -- 48 entries, no name twice, each digest a nonempty run of lower-case hexadecimal digits, each
  -- artifact below the directory has the stem of an entry, and each entry has its two files, the
  -- `.wasm` with the magic and the `.wat` with the registry's digest.
  pub diagnostics_status :
      (found : List (Text × Text)) (out : List File)
      → (report (diagnostics L (entries_found found) (some out)) ≡ 0) ↔ IsClean found out
  unfolding report diagnostics load_entries
  diagnostics_status found out = (
    λ h. elim (Result-cases (parse_registry found)) [
      | inl (e, bad) ↦ absurd (ground arith)
      | inr (entries, e) ↦
          let (count, clean) = (diagnostics-ok found entries out e).0 h in
          let (same, distinct, hex) = (parse_registry_iff found entries).0 e in
          let (owned, complete) = (check_target_iff L found out).0 (rw same at clean) in
          record {
            count = rw same at count;
            distinct = distinct;
            hexadecimal = hex;
            owned = owned;
            complete = complete;
          }
    ],
    λ c.
        let e = (parse_registry_iff found found).1 (refl, c.distinct, c.hexadecimal) in
        (diagnostics-ok found found out e).1
          (c.count, (check_target_iff L found out).1 (c.owned, c.complete)),
  )
