-- ===== src/NoSorry/Lines.antt =====
-- `strip_comments` and the lines of its result.
use proof_forge_near.Prelude.{
  ℕ, zero, suc, ◌<◌, ◌≡◌, List, [], ◌∷◌, ◌==◌, arith, if◌then◌else◌, length, Text,
}
use proof_forge_near.NoSorry.{
  newline, Mode, in_code, in_line, in_block, strip, strip_comments, split_lines, prepend,
}

abbrev newlines : Text → ℕ
newlines [] = 0
newlines (c ∷ rest) = if c == newline then suc (newlines rest) else newlines rest

newlines-strip : (m : Mode) (text : Text) → newlines (strip m text) ≡ newlines text
unfolding strip
newlines-strip in_line [] = ground arith
newlines-strip in_line (a ∷ rest) =
    ground (arith, newlines-strip in_line rest, newlines-strip in_code rest)
newlines-strip in_code [] = ground arith
newlines-strip in_code (a ∷ []) = ground arith
newlines-strip in_code (a ∷ b ∷ rest) = ground (
  arith,
  newlines-strip (in_block 0) rest,
  newlines-strip in_line (b ∷ rest),
  newlines-strip in_code (b ∷ rest),
)
newlines-strip (in_block d) [] = ground arith
newlines-strip (in_block d) (a ∷ []) = ground arith
newlines-strip (in_block zero) (a ∷ b ∷ rest) = ground (
  arith,
  newlines-strip (in_block 1) rest,
  newlines-strip in_code rest,
  newlines-strip (in_block 0) (b ∷ rest),
)
newlines-strip (in_block (suc d)) (a ∷ b ∷ rest) = ground (
  arith,
  newlines-strip (in_block (suc (suc d))) rest,
  newlines-strip (in_block d) rest,
  newlines-strip (in_block (suc d)) (b ∷ rest),
)

length-prepend : (c : ℕ) (ls : List Text) → 0 < length ls → length (prepend c ls) ≡ length ls
unfolding prepend
length-prepend c [] h = absurd (omega arith)
length-prepend c (l ∷ ls) h = omega arith

length-split_lines : (text : Text) → length (split_lines text) ≡ suc (newlines text)
unfolding split_lines
length-split_lines [] = omega arith
length-split_lines (c ∷ rest) =
    ground (arith, length-split_lines rest, length-prepend c (split_lines rest))

-- Stripping the comments keeps the number of lines.
pub length-split_lines-strip_comments :
    (text : Text) → length (split_lines (strip_comments text)) ≡ length (split_lines text)
unfolding strip_comments
length-split_lines-strip_comments text = omega (
  arith,
  length-split_lines (strip in_code text),
  length-split_lines text,
  newlines-strip in_code text,
)
