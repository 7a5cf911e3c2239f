-- ===== src/NoSorry/Gate.antt =====
-- `main` of the gate: what it accepts, and what its report says.
use proof_forge_near.Prelude.{
  ℕ, ◌+◌, ◌≡◌, ◌↔◌, ◌⊎◌, refl, Bool, true, false, none, some, List, [], ◌∷◌, Bool-cases, inl, inr,
  arith, All, append-nil_iff, Text, mem,
}
use proof_forge_near.NoSorry.{
  newline, is_free, search, split_lines, strip_comments, sorry_word, sorry_ax_word, allowed_files,
  Source, Failure, scan_line, scan_lines, scan_file, scan_files, exit_status, main,
}
use proof_forge_near.NoSorry.Search.{Occurs, search-iff-Occurs}
use proof_forge_near.NoSorry.ByLine.{any_line, search-any_line}

exit_status-zero : (vs : List Failure) → (exit_status vs ≡ 0) ↔ (vs ≡ [])
unfolding exit_status
exit_status-zero [] = ground arith
exit_status-zero (v ∷ vs) = ground arith

module _ (word : ℕ → Bool) (gap : is_free word (some newline) ≡ true) where
  -- The file is on the allowlist, or its code outside comments has neither placeholder.
  abbrev pub IsAccepted : Source → Type 0
  IsAccepted f =
      (mem f.rel allowed_files ≡ true)
      ⊎ ((¬ Occurs word sorry_word none (strip_comments f.text))
          × (¬ Occurs word sorry_ax_word none (strip_comments f.text)))

  scan_line-nil :
      (rel : Text) (i : ℕ) (line : Text)
      → (scan_line word rel i line ≡ [])
        ↔ ((search word sorry_word line ≡ false) × (search word sorry_ax_word line ≡ false))
  unfolding scan_line
  scan_line-nil rel i line = ground arith

  scan_lines-nil :
      (rel : Text) (i : ℕ) (lines : List Text)
      → (scan_lines word rel i lines ≡ []) ↔ (
          (any_line word gap sorry_word lines ≡ false)
          × (any_line word gap sorry_ax_word lines ≡ false))
  unfolding scan_lines
  scan_lines-nil rel i [] = ground arith
  scan_lines-nil rel i (line ∷ lines) = ground (
    arith,
    append-nil_iff (scan_line word rel i line) (scan_lines word rel (i + 1) lines),
    scan_line-nil rel i line,
    scan_lines-nil rel (i + 1) lines,
  )

  not_found : (lit text : Text) → (search word lit text ≡ false) ↔ (¬ Occurs word lit none text)
  not_found lit text =
      let iff = search-iff-Occurs word lit text in
      (
        λ h o. cc (h, iff.1 o),
        λ no_match. elim (Bool-cases (search word lit text)) [
          | inl found ↦ absurd (no_match (iff.0 found))
          | inr missing ↦ missing
        ],
      )

  scan_code-nil :
      (rel text : Text)
      → (scan_lines word rel 1 (split_lines text) ≡ [])
        ↔ ((search word sorry_word text ≡ false) × (search word sorry_ax_word text ≡ false))
  scan_code-nil rel text = rw (search-any_line word gap sorry_word (omega arith) text) (
      rw (search-any_line word gap sorry_ax_word (omega arith) text)
        (scan_lines-nil rel 1 (split_lines text)))

  scan_file-nil : (f : Source) → (scan_file word f ≡ []) ↔ IsAccepted f
  unfolding scan_file
  scan_file-nil f =
      let code = strip_comments f.text in
      let iff = scan_code-nil f.rel code in
      let plain = not_found sorry_word code in
      let ax = not_found sorry_ax_word code in
      elim (Bool-cases (mem f.rel allowed_files)) [
        | inl here ↦ rw here (λ _. inl refl, λ _. refl)
        | inr other ↦ rw other (
          λ h. let (p, a) = iff.0 h in inr (plain.0 p, ax.0 a),
          elim [ inl h ↦ cc h | inr h ↦ iff.1 (plain.1 h.0, ax.1 h.1) ],
        )
      ]

  scan_files-nil : (fs : List Source) → (scan_files word fs ≡ []) ↔ All IsAccepted fs
  unfolding scan_files
  scan_files-nil [] = (λ _. tt, λ _. refl)
  scan_files-nil (f ∷ fs) =
      let split = append-nil_iff (scan_file word f) (scan_files word fs) in
      let one = scan_file-nil f in
      let more = scan_files-nil fs in
      (λ h. let (p, q) = split.0 h in (one.0 p, more.0 q), λ h. split.1 (one.1 h.0, more.1 h.1))

  -- The gate exits with 0 exactly when every scanned file is on the allowlist or has neither
  -- `sorry` nor `sorryAx` as a word in its code outside comments; a newline is taken to be no
  -- word character.
  pub main_status : (fs : List Source) → ((main word fs).status ≡ 0) ↔ All IsAccepted fs
  unfolding main
  main_status fs =
      let iff = scan_files-nil fs in
      let zero_iff = exit_status-zero (scan_files word fs) in
      (λ h. iff.0 (zero_iff.0 h), λ h. zero_iff.1 (iff.1 h))
