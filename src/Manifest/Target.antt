-- ===== src/Manifest/Target.antt =====
-- `check_target`: the output directories with nothing to report.
use proof_forge_near.Prelude.{
  ◌≡◌, ◌≢◌, ◌↔◌, refl, none, some, Option-cases, inl, inr, List, [], ◌∷◌, ◌++◌, arith, Text, Bytes,
  codes, text_eq_iff, take, All, append-nil_iff,
}
use proof_forge_near.Py.Dict.{Dict, lookup}
use proof_forge_near.Manifest.{
  wasm, wat, artifact_stem, File, file_at, magic, Library, read_digest, check_wasm,
  check_expected_file, check_artifact, compare_digest, check_digest, check_entry, check_entries,
  orphan, orphans, check_target,
}

module _ (L : Library) where
  -- The `.wasm` file of an entry: it is there, not empty, readable, and begins with the magic.
  pub record HasWasm (out : List File) (name : Text) : Type 0 where
    pub file : File
    pub here : file_at (name ++ codes ".wasm") out ≡ some file
    pub nonempty : file.size ≢ 0
    pub bytes : Bytes
    pub readable : file.content ≡ some bytes
    pub wasm_magic : take 4 bytes ≡ magic

  -- The `.wat` file of an entry: it is there, not empty, and its digest is the registry's.
  pub record HasWat (out : List File) (name digest : Text) : Type 0 where
    pub file : File
    pub here : file_at (name ++ codes ".wat") out ≡ some file
    pub nonempty : file.size ≢ 0
    pub same_digest : read_digest L file ≡ some digest

  wasm_step :
      (f : File)
      → (check_expected_file L f wasm ≡ [])
        ↔ ((f.size ≢ 0) × ((b : Bytes) × (f.content ≡ some b) × (take 4 b ≡ magic)))
  unfolding check_expected_file check_wasm
  wasm_step f = elim (Option-cases f.content) [
    | inl n ↦ (λ h. ground arith, λ (p, (b, e, q)). ground arith)
    | inr (b, c) ↦
        let same = text_eq_iff (take 4 b) magic in
        (
          λ h. (ground arith, (b, c, same.0 (ground arith))),
          λ (p, (b2, e, q)).
              let r = same.1 (let k : b ≡ b2 = ground arith in rw k q) in ground arith,
        )
  ]

  check_wasm_iff :
      (out : List File) (name : Text) → (check_artifact L out name wasm ≡ []) ↔ HasWasm out name
  unfolding check_artifact
  check_wasm_iff out name = (
    λ h. elim (Option-cases (file_at (name ++ codes ".wasm") out)) [
      | inl n ↦ absurd (ground arith)
      | inr (f, e) ↦
          let (p, (b, c, m)) = (wasm_step f).0 (ground arith) in
          record { file = f; here = e; nonempty = p; bytes = b; readable = c; wasm_magic = m }
    ],
    λ w.
        let ok = (wasm_step w.file).1 (w.nonempty, (w.bytes, w.readable, w.wasm_magic)) in
        let e = w.here in ground arith,
  )

  check_wat_iff :
      (out : List File) (name digest : Text)
      → ((check_artifact L out name wat ≡ []) × (check_digest L out name digest ≡ []))
        ↔ HasWat out name digest
  unfolding check_artifact check_expected_file check_digest compare_digest
  check_wat_iff out name digest = (
    λ (h, k). elim (Option-cases (file_at (name ++ codes ".wat") out)) [
      | inl n ↦ absurd (ground arith)
      | inr (f, e) ↦ elim (Option-cases (read_digest L f)) [
        | inl n ↦ absurd (ground arith)
        | inr (found, r) ↦
            let same = (text_eq_iff found digest).0 (ground arith) in
            record { file = f; here = e; nonempty = ground arith; same_digest = cc }
      ]
    ],
    λ w.
        let e = w.here in
        let p = w.nonempty in
        let r = w.same_digest in
        let t = (text_eq_iff digest digest).1 refl in (ground arith, ground arith),
  )

  -- No artifact, or an artifact of an entry.
  pub data IsOwned (entries : Dict Text) (f : File) : Type 0 where
    no_artifact : artifact_stem f.name ≡ none → IsOwned entries f
    artifact_of :
        (stem digest : Text)
        → artifact_stem f.name ≡ some stem
        → lookup stem entries ≡ some digest
        → IsOwned entries f

  abbrev pub HasFiles : List File → Text × Text → Type 0
  HasFiles out e = HasWasm out e.0 × HasWat out e.0 e.1

  orphan-IsOwned :
      (entries : Dict Text) (f : File)
      → IsOwned entries f
      → orphan L entries (artifact_stem f.name) ≡ []
  unfolding orphan
  orphan-IsOwned entries f (no_artifact n) = ground arith
  orphan-IsOwned entries f (artifact_of stem digest e l) = ground arith

  orphan_iff :
      (entries : Dict Text) (f : File)
      → (orphan L entries (artifact_stem f.name) ≡ []) ↔ IsOwned entries f
  unfolding orphan
  orphan_iff entries f = (
    λ h. elim (Option-cases (artifact_stem f.name)) [
      | inl n ↦ no_artifact n
      | inr (stem, e) ↦ elim (Option-cases (lookup stem entries)) [
        | inl n ↦ absurd (ground arith)
        | inr (d, l) ↦ artifact_of stem d e l
      ]
    ],
    orphan-IsOwned entries f,
  )

  orphans_iff :
      (entries : Dict Text) (out : List File)
      → (orphans L entries out ≡ []) ↔ All (IsOwned entries) out
  unfolding orphans
  orphans_iff entries [] = (λ h. tt, λ h. refl)
  orphans_iff entries (f ∷ fs) =
      let split = append-nil_iff (orphan L entries (artifact_stem f.name)) (orphans L entries fs) in
      let here = orphan_iff entries f in
      let more = orphans_iff entries fs in
      (λ h. let (a, b) = split.0 h in (here.0 a, more.0 b), λ (a, b). split.1 (here.1 a, more.1 b))

  check_entry_iff :
      (out : List File) (name digest : Text)
      → (check_entry L out name digest ≡ []) ↔ HasFiles out (name, digest)
  unfolding check_entry
  check_entry_iff out name digest =
      let wat_part = check_artifact L out name wat in
      let digest_part = check_digest L out name digest in
      let outer = append-nil_iff (check_artifact L out name wasm) (wat_part ++ digest_part) in
      let inner = append-nil_iff wat_part digest_part in
      (
        λ h.
            let (a, b) = outer.0 h in
            ((check_wasm_iff out name).0 a, (check_wat_iff out name digest).0 (inner.0 b)),
        λ (a, b).
            outer.1 ((check_wasm_iff out name).1 a, inner.1 ((check_wat_iff out name digest).1 b)),
      )

  check_entries_iff :
      (out : List File) (entries : Dict Text)
      → (check_entries L out entries ≡ []) ↔ All (HasFiles out) entries
  unfolding check_entries
  check_entries_iff out [] = (λ h. tt, λ h. refl)
  check_entries_iff out ((name, digest) ∷ rest) =
      let split = append-nil_iff (check_entry L out name digest) (check_entries L out rest) in
      let here = check_entry_iff out name digest in
      let more = check_entries_iff out rest in
      (λ h. let (a, b) = split.0 h in (here.0 a, more.0 b), λ (a, b). split.1 (here.1 a, more.1 b))

  -- The check of an output directory reports nothing exactly when each `.wasm` or `.wat` file below it
  -- has the stem of an entry, and each entry has a nonempty `.wasm` file that begins with the magic
  -- and a nonempty `.wat` file whose digest is the registry's.
  pub check_target_iff :
      (entries : Dict Text) (out : List File)
      → (check_target L entries (some out) ≡ [])
        ↔ (All (IsOwned entries) out × All (HasFiles out) entries)
  unfolding check_target
  check_target_iff entries out =
      let split = append-nil_iff (orphans L entries out) (check_entries L out entries) in
      (
        λ h.
            let (a, b) = split.0 h in
            ((orphans_iff entries out).0 a, (check_entries_iff out entries).0 b),
        λ (a, b). split.1 ((orphans_iff entries out).1 a, (check_entries_iff out entries).1 b),
      )
