-- ===== src/Py/Space.antt =====
-- `str.isspace`, which is the class `\s` of `re`, and what is built on it: `str.strip` and
-- `str.splitlines`.
use proof_forge_near.Prelude.{
  ℕ, Bool, true, false, ◌&&◌, ◌||◌, List, [], ◌∷◌, ◌==◌, leb, if◌then◌else◌, Text,
}

unfoldable pub is_space : ℕ → Bool
is_space c =
    (leb 9 c && leb c 13)
    || (leb 28 c && leb c 32)
    || c == 0x85
    || c == 0xa0
    || c == 0x1680
    || (leb 0x2000 c && leb c 0x200a)
    || c == 0x2028
    || c == 0x2029
    || c == 0x202f
    || c == 0x205f
    || c == 0x3000

-- `text.lstrip()`
unfoldable pub skip_space : Text → Text
unfolding is_space
skip_space [] = []
skip_space (c ∷ rest) = elim (is_space c) [ true ↦ skip_space rest | false ↦ c ∷ rest ]

keep_end : Bool → ℕ → Text → Text
keep_end true c [] = []
keep_end true c (x ∷ rest) = c ∷ x ∷ rest
keep_end false c rest = c ∷ rest

-- `text.rstrip()`
unfoldable pub strip_end : Text → Text
unfolding keep_end is_space
strip_end [] = []
strip_end (c ∷ rest) = keep_end (is_space c) c (strip_end rest)

-- `text.strip()`
unfoldable pub strip_space : Text → Text
unfolding skip_space strip_end
strip_space text = strip_end (skip_space text)

-- The characters at which `str.splitlines` breaks a line.
is_line_break : ℕ → Bool
is_line_break c =
    (leb 10 c && leb c 13) || (leb 28 c && leb c 30) || c == 0x85 || c == 0x2028 || c == 0x2029

begins_with_newline : Text → Bool
begins_with_newline [] = false
begins_with_newline (c ∷ rest) = c == 10

extend : ℕ → List Text → List Text
extend c [] = (c ∷ []) ∷ []
extend c (l ∷ ls) = (c ∷ l) ∷ ls

-- `text.splitlines()`: a carriage return before a newline breaks no line of its own.
unfoldable pub splitlines : Text → List Text
unfolding is_line_break begins_with_newline extend
splitlines [] = []
splitlines (c ∷ rest) =
    let lines = splitlines rest in
    if c == 13 && begins_with_newline rest
    then lines
    else if is_line_break c
    then [] ∷ lines
    else extend c lines
