-- ===== src/NoSorry/Report.antt =====
-- The lines that the report of the gate names.
use proof_forge_near.Prelude.{
  ℕ, ◌+◌, ◌≤◌, ◌≡◌, refl, ◌==◌, Bool, true, false, Option, none, some, List, [], ◌∷◌, Bool-cases,
  inl, inr, arith, if◌then◌else◌, All, All-append, Text, mem,
}
use proof_forge_near.NoSorry.{
  search, split_lines, strip_comments, sorry_word, sorry_ax_word, allowed_files, Source, Failure,
  Placeholder, sorry, sorry_ax, scan_line, scan_lines, scan_file,
}
use proof_forge_near.NoSorry.Search.{Occurs, search-iff-Occurs}

abbrev pub word_of : Placeholder → Text
word_of sorry = sorry_word
word_of sorry_ax = sorry_ax_word

-- The line of a number, where the first of the lines has the number `i`.
abbrev pub line_from : ℕ → List Text → ℕ → Option Text
line_from i [] n = none
line_from i (l ∷ ls) n = if i == n then some l else line_from (i + 1) ls n

module _ {ℓ κ} {A : Type ℓ} (P : A → Type κ) where
  All-if : (b : Bool) (v : A) → (b ≡ true → P v) → All P (if b then v ∷ [] else [])
  All-if true v h = (h refl, tt)
  All-if false v h = tt

  All-map {μ} : {Q : A → Type μ} → ((x : A) → P x → Q x) → (xs : List A) → All P xs → All Q xs
  All-map f [] h = tt
  All-map f (x ∷ xs) h = (f x h.0, All-map f xs h.1)

module _ (word : ℕ → Bool) where
  -- The failure names the file, one of the lines that are numbered from `i`, and what it has.
  pub record IsLocated (rel : Text) (i : ℕ) (lines : List Text) (v : Failure) : Type 0 where
    pub named : v.rel ≡ rel
    pub from : i ≤ v.line
    pub line : Text
    pub at : line_from i lines v.line ≡ some line
    pub found : Occurs word (word_of v.kind) none line

  scan_line-IsLocated :
      (rel : Text) (i : ℕ) (l : Text) (ls : List Text)
      → All (IsLocated rel i (l ∷ ls)) (scan_line word rel i l)
  unfolding scan_line
  scan_line-IsLocated rel i l ls =
      All-append (IsLocated rel i (l ∷ ls)) _ _
        (All-if (IsLocated rel i (l ∷ ls)) _ _ (located sorry))
        (All-if (IsLocated rel i (l ∷ ls)) _ _ (located sorry_ax))
    where
      located :
          (k : Placeholder)
          → search word (word_of k) l ≡ true
          → IsLocated rel i (l ∷ ls) (record { rel = rel; line = i; kind = k })
      located k h = record {
        named = refl;
        from = omega arith;
        line = l;
        at = ground arith;
        found = (search-iff-Occurs word (word_of k) l).0 h;
      }

  IsLocated-later :
      (rel : Text) (i : ℕ) (l : Text) (ls : List Text) (v : Failure)
      → IsLocated rel (i + 1) ls v
      → IsLocated rel i (l ∷ ls) v
  IsLocated-later rel i l ls v h = record {
    named = h.named;
    from = omega (arith, h.from);
    line = h.line;
    at = ground (arith, h.at, h.from);
    found = h.found;
  }

  scan_lines-IsLocated :
      (rel : Text) (i : ℕ) (lines : List Text)
      → All (IsLocated rel i lines) (scan_lines word rel i lines)
  unfolding scan_lines
  scan_lines-IsLocated rel i [] = tt
  scan_lines-IsLocated rel i (l ∷ ls) =
      All-append (IsLocated rel i (l ∷ ls)) _ _ (scan_line-IsLocated rel i l ls) (
        All-map (IsLocated rel (i + 1) ls) (IsLocated-later rel i l ls) _
          (scan_lines-IsLocated rel (i + 1) ls))

  -- Every failure of a file names that file and a line, counted from 1, of its text without
  -- comments, and that line has the placeholder that the failure names.
  pub scan_file-IsLocated :
      (f : Source)
      → All (IsLocated f.rel 1 (split_lines (strip_comments f.text))) (scan_file word f)
  unfolding scan_file
  scan_file-IsLocated f = elim (Bool-cases (mem f.rel allowed_files)) [
    | inl h ↦ rw h tt
    | inr h ↦ rw h (scan_lines-IsLocated f.rel 1 (split_lines (strip_comments f.text)))
  ]
