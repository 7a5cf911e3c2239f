-- ===== src/NoSorry/Search.antt =====
-- `pattern.search` against a description by parts, and a search by lines against one of the whole.
use proof_forge_near.Prelude.{
  ℕ, ◌≡◌, ◌↔◌, refl, ap, Bool, true, ◌&&◌, Option, none, some, [], ◌∷◌, ◌++◌, Bool-cases, inl, inr,
  arith, Text,
}
use proof_forge_near.NoSorry.{is_free, match_here, search_from, search}

-- The character behind a text, and the one before the end of a text that follows `prev`.
abbrev pub first : Text → Option ℕ
first [] = none
first (x ∷ xs) = some x

abbrev pub last : Option ℕ → Text → Option ℕ
last prev [] = prev
last prev (x ∷ xs) = last (some x) xs

module _ (word : ℕ → Bool) where
  -- The literal stands in the text, with no character of the class on either side.
  pub record Occurs (lit : Text) (prev : Option ℕ) (text : Text) : Type 0 where
    pub before : Text
    pub after : Text
    pub parts : text ≡ before ++ (lit ++ after)
    pub left : is_free word (last prev before) ≡ true
    pub right : is_free word (first after) ≡ true

  match_here_sound :
      (lit text : Text)
      → match_here word lit text ≡ true
      → (after : Text) × (text ≡ lit ++ after) × (is_free word (first after) ≡ true)
  unfolding match_here
  match_here_sound [] [] h = ([], refl, h)
  match_here_sound [] (x ∷ xs) h = (x ∷ xs, refl, h)
  match_here_sound (p ∷ ps) [] h = cc
  match_here_sound (p ∷ ps) (x ∷ xs) h =
      let (after, e, free) = match_here_sound ps xs (ground arith) in (after, ground arith, free)

  match_here_complete :
      (lit after : Text)
      → is_free word (first after) ≡ true
      → match_here word lit (lit ++ after) ≡ true
  unfolding match_here
  match_here_complete [] [] h = h
  match_here_complete [] (x ∷ xs) h = h
  match_here_complete (p ∷ ps) after h = ground (arith, match_here_complete ps after h)

  search_from_sound :
      (lit : Text) (prev : Option ℕ) (text : Text)
      → search_from word lit prev text ≡ true
      → Occurs lit prev text
  unfolding search_from
  search_from_sound lit prev [] h =
      let (after, e, free) = match_here_sound lit [] (ground arith) in
      record { before = []; after = after; parts = e; left = ground arith; right = free }
  search_from_sound lit prev (c ∷ rest) h =
      elim (Bool-cases (is_free word prev && match_here word lit (c ∷ rest))) [
        | inl here ↦
            let (after, e, free) = match_here_sound lit (c ∷ rest) (ground arith) in
            record { before = []; after = after; parts = e; left = ground arith; right = free }
        | inr later ↦
            let o = search_from_sound lit (some c) rest (ground arith) in
            record {
              before = c ∷ o.before;
              after = o.after;
              parts = ap (λ r. c ∷ r) o.parts;
              left = o.left;
              right = o.right;
            }
      ]

  search_from_complete :
      (lit : Text) (prev : Option ℕ) (before after : Text)
      → is_free word (last prev before) ≡ true
      → is_free word (first after) ≡ true
      → search_from word lit prev (before ++ (lit ++ after)) ≡ true
  unfolding search_from
  search_from_complete [] prev [] [] l r = ground (arith, match_here_complete [] [] r)
  search_from_complete [] prev [] (x ∷ after) l r =
      ground (arith, match_here_complete [] (x ∷ after) r)
  search_from_complete (p ∷ ps) prev [] after l r =
      ground (arith, match_here_complete (p ∷ ps) after r)
  search_from_complete lit prev (x ∷ before) after l r =
      ground (arith, search_from_complete lit (some x) before after l r)

  -- A search finds a literal exactly when the text has it with no character of the class (a word
  -- character, a quote, `!` or `?`) directly before or behind it.
  pub search-iff-Occurs : (lit text : Text) → (search word lit text ≡ true) ↔ Occurs lit none text
  unfolding search
  search-iff-Occurs lit text = (
    search_from_sound lit none text,
    λ o. rw o.parts (search_from_complete lit none o.before o.after o.left o.right),
  )
