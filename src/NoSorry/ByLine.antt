-- ===== src/NoSorry/ByLine.antt =====
-- Searching the lines of a text one by one, against searching the whole text.
use proof_forge_near.Prelude.{
  ℕ, ◌≡◌, ◌≢◌, refl, ◌∙◌, Bool, true, false, ◌||◌, Option, none, some, List, [], ◌∷◌, ◌==◌, ==_iff,
  Bool-cases, inl, inr, arith, All, Text,
}
use proof_forge_near.NoSorry.{
  newline, is_free, match_here, search_from, search, split_lines, prepend,
}

abbrev head_line : List Text → Text
head_line [] = []
head_line (l ∷ ls) = l

split_lines-cons : (text : Text) → (l : Text) × (ls : List Text) × (split_lines text ≡ l ∷ ls)
unfolding split_lines
split_lines-cons [] = ([], [], refl)
split_lines-cons (c ∷ rest) =
    let (l, ls, e) = split_lines-cons rest in
    elim (Bool-cases (c == newline)) [
      | inl here ↦ ([], split_lines rest, rw here)
      | inr more ↦ (c ∷ l, ls, rw (more, e))
    ]

head_line-prepend : (c : ℕ) (ls : List Text) → head_line (prepend c ls) ≡ c ∷ head_line ls
unfolding prepend
head_line-prepend c [] = refl
head_line-prepend c (l ∷ ls) = refl

module _ (word : ℕ → Bool) (gap : is_free word (some newline) ≡ true) (lit : Text) where
  abbrev pub any_line : List Text → Bool
  any_line [] = false
  any_line (l ∷ ls) = search word lit l || any_line ls

  abbrev first_line : Option ℕ → List Text → Bool
  first_line prev [] = false
  first_line prev (l ∷ ls) = search_from word lit prev l || any_line ls

  first_line-none : (ls : List Text) → first_line none ls ≡ any_line ls
  unfolding search
  first_line-none [] = refl
  first_line-none (l ∷ ls) = refl

  search_from-newline :
      (text : Text) → search_from word lit (some newline) text ≡ search_from word lit none text
  unfolding search_from
  search_from-newline [] = ground (arith, gap)
  search_from-newline (c ∷ rest) = ground (arith, gap)

module _ (word : ℕ → Bool) (gap : is_free word (some newline) ≡ true) where
  match_here-head_line :
      (lit text : Text)
      → All (λ c. c ≢ newline) lit
      → match_here word lit text ≡ match_here word lit (head_line (split_lines text))
  unfolding match_here split_lines
  match_here-head_line [] [] h = refl
  match_here-head_line (p ∷ ps) [] h = refl
  match_here-head_line [] (c ∷ rest) h =
      ground (arith, gap, head_line-prepend c (split_lines rest), ==_iff c newline)
  match_here-head_line (p ∷ ps) (c ∷ rest) h = elim (Bool-cases (c == newline)) [
    | inl here ↦ rw here (ground arith)
    | inr more ↦
        rw (more, head_line-prepend c (split_lines rest), match_here)
          (ground (arith, match_here-head_line ps rest h.1))
  ]

  module _ (lit : Text) (flat : All (λ c. c ≢ newline) lit) where
    match_here-newline :
        (c : ℕ) (rest : Text)
        → (c == newline) ≡ true
        → match_here word lit (c ∷ rest) ≡ match_here word lit []
    unfolding split_lines
    match_here-newline c rest here = match_here-head_line lit (c ∷ rest) flat ∙ rw here

    match_here-more :
        (c : ℕ) (rest l : Text) (ls : List Text)
        → (c == newline) ≡ false
        → split_lines rest ≡ l ∷ ls
        → match_here word lit (c ∷ rest) ≡ match_here word lit (c ∷ l)
    unfolding split_lines prepend
    match_here-more c rest l ls more e = match_here-head_line lit (c ∷ rest) flat ∙ rw (more, e)

    search_from-split_lines :
        (prev : Option ℕ) (text : Text)
        → search_from word lit prev text ≡ first_line word gap lit prev (split_lines text)
    unfolding search_from split_lines prepend
    search_from-split_lines prev [] = ground arith
    search_from-split_lines prev (c ∷ rest) =
        let (l, ls, e) = split_lines-cons rest in
        elim (Bool-cases (c == newline)) [
          | inl here ↦ rw here (
              ground (
                arith,
                here,
                (==_iff c newline).0 here,
                match_here-newline c rest here,
                search_from-newline word gap lit rest,
                search_from-split_lines none rest,
                first_line-none word gap lit (split_lines rest),
              ))
          | inr more ↦
              rw (more, e)
                (ground (
                  arith,
                  match_here-more c rest l ls more e,
                  rw e at (search_from-split_lines (some c) rest),
                ))
        ]

    -- A text has a literal that spans no line break exactly when one of its lines has it.
    pub search-any_line :
        (text : Text) → search word lit text ≡ any_line word gap lit (split_lines text)
    unfolding search
    search-any_line text =
        search_from-split_lines none text ∙ first_line-none word gap lit (split_lines text)
