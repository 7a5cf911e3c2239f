-- ===== src/NoSorry.antt =====
-- scripts/check_no_sorry.py: the gate on `sorry` in Lean sources. The character class `\w` of
-- Python's `re` is the parameter `word`; the files under the scanned roots are an argument.
pub mod Lines
pub mod Comments
pub mod Search
pub mod ByLine
pub mod Gate
pub mod Report
pub mod Tests
use proof_forge_near.Prelude.{
  ℕ, zero, suc, ◌+◌, Bool, true, false, not, ◌&&◌, ◌||◌, Option, none, some, List, [], ◌∷◌, ◌++◌,
  ◌==◌, if◌then◌else◌, Text, codes, mem,
}

abbrev pub newline : ℕ
newline = 10

-- What the two characters `text[i : i + 2]` are.
pub data Pair : Type 0 where
  opens closes dashes other : Pair

unfoldable pub pair : ℕ → ℕ → Pair
pair a b =
    if a == b'/' && b == b'-'
    then opens
    else if a == b'-' && b == b'/'
    then closes
    else if a == b'-' && b == b'-'
    then dashes
    else other

-- `depth` and the inner loop over a line comment: `block d` stands for depth `d + 1`.
pub data Mode : Type 0 where
  in_code in_line : Mode
  in_block : ℕ → Mode

pub leave : ℕ → Mode
leave zero = in_code
leave (suc d) = in_block d

-- Inside a block comment a newline stays, and anything else becomes a space.
pub blank : ℕ → ℕ
blank c = if c == newline then newline else b' '

pub strip : Mode → Text → Text
unfolding pair leave blank
strip in_line [] = []
strip in_line (a ∷ rest) = elim (a == newline) [
  | true ↦ newline ∷ strip in_code rest
  | false ↦ strip in_line rest
]
strip in_code [] = []
strip in_code (a ∷ []) = a ∷ []
strip in_code (a ∷ b ∷ rest) = elim (pair a b) [
  | opens ↦ strip (in_block 0) rest
  | dashes ↦ strip in_line (b ∷ rest)
  | _ ↦ a ∷ strip in_code (b ∷ rest)
]
strip (in_block d) [] = []
strip (in_block d) (a ∷ []) = blank a ∷ []
strip (in_block d) (a ∷ b ∷ rest) = elim (pair a b) [
  | opens ↦ strip (in_block (suc d)) rest
  | closes ↦ strip (leave d) rest
  | _ ↦ blank a ∷ strip (in_block d) (b ∷ rest)
]

pub strip_comments : Text → Text
unfolding strip
strip_comments text = strip in_code text

-- `code.split("\n")`
prepend : ℕ → List Text → List Text
prepend c [] = (c ∷ []) ∷ []
prepend c (l ∷ ls) = (c ∷ l) ∷ ls

pub split_lines : Text → List Text
unfolding prepend
split_lines [] = [] ∷ []
split_lines (c ∷ rest) = let ls = split_lines rest in if c == newline then [] ∷ ls else prepend c ls

abbrev pub sorry_word : Text
sorry_word = codes "sorry"

abbrev pub sorry_ax_word : Text
sorry_ax_word = codes "sorryAx"

abbrev pub allowed_files : List Text
allowed_files =
    codes "Tests/Fixtures.lean"
    ∷ codes "Tests/ProfileSpec.lean"
    ∷ codes "ProofForge/Profile.lean"
    ∷ []

pub record Source : Type 0 where
  pub rel : Text
  pub text : Text

pub data Placeholder : Type 0 where
  sorry sorry_ax : Placeholder

-- One line of the report: the file, the line counted from 1, and which placeholder it holds.
pub record Failure : Type 0 where
  pub rel : Text
  pub line : ℕ
  pub kind : Placeholder

pub record Outcome : Type 0 where
  pub failures : List Failure
  pub status : ℕ

exit_status : List Failure → ℕ
exit_status [] = 0
exit_status (f ∷ fs) = 1

module _ (word : ℕ → Bool) where
  -- `[\w'!?]`
  pub is_bad : ℕ → Bool
  is_bad c = word c || c == b'\'' || c == b'!' || c == b'?'

  -- The two look-around assertions: there is no character there, or none of the class.
  unfoldable pub is_free : Option ℕ → Bool
  unfolding is_bad
  is_free none = true
  is_free (some c) = not (is_bad c)

  -- The rest of a pattern at the head of a text, with the look-ahead behind it.
  match_here : Text → Text → Bool
  unfolding is_free
  match_here [] [] = is_free none
  match_here [] (x ∷ xs) = is_free (some x)
  match_here (p ∷ ps) [] = false
  match_here (p ∷ ps) (x ∷ xs) = x == p && match_here ps xs

  -- `pattern.search(line)`, where the character before the line's rest is `prev`.
  pub search_from : Text → Option ℕ → Text → Bool
  unfolding match_here
  search_from lit prev [] = is_free prev && match_here lit []
  search_from lit prev (c ∷ rest) =
      (is_free prev && match_here lit (c ∷ rest)) || search_from lit (some c) rest

  unfoldable pub search : Text → Text → Bool
  unfolding search_from
  search lit line = search_from lit none line

  pub scan_line : Text → ℕ → Text → List Failure
  unfolding search
  scan_line rel i line =
      (if search sorry_word line then record { rel = rel; line = i; kind = sorry } ∷ [] else [])
      ++ (if search sorry_ax_word line
          then record { rel = rel; line = i; kind = sorry_ax } ∷ []
          else [])

  -- `for i, line in enumerate(lines, 1)`
  pub scan_lines : Text → ℕ → List Text → List Failure
  unfolding scan_line
  scan_lines rel i [] = []
  scan_lines rel i (line ∷ lines) = scan_line rel i line ++ scan_lines rel (i + 1) lines

  pub scan_file : Source → List Failure
  unfolding scan_lines strip_comments split_lines mem
  scan_file f =
      if mem f.rel allowed_files
      then []
      else scan_lines f.rel 1 (split_lines (strip_comments f.text))

  pub scan_files : List Source → List Failure
  unfolding scan_file
  scan_files [] = []
  scan_files (f ∷ fs) = scan_file f ++ scan_files fs

  unfoldable pub main : List Source → Outcome
  unfolding scan_files exit_status
  main files =
      let failures = scan_files files in
      record { failures = failures; status = exit_status failures }
